-- ===== src/Tests/Commands.antt =====
-- The commands and the installer.
use credential_helper.Base.{
  ℕ, ◌≡◌, ◌≢◌, refl, subst, false, true, Option, none, some, [], ◌∷◌, arith, ◌==◌, if◌then◌else◌,
}
use credential_helper.Text.{Text, lit, text_eq, text_eq_refl}
use credential_helper.Text.Affix.{has_prefix}
use credential_helper.Dict.{Dict, lookup, insert, removed, keep, lookup-insert}
use credential_helper.Errors.{Result, ok, err, failure}
use credential_helper.Api.{agent_request_shutdown}
use credential_helper.Cache.Mem.{MemCache, new_mem_cache, mem_cache}
use credential_helper.Lookup.Source.{KeyringAnswer, secret, absent, keyring, Keyring, source_lookup}
use credential_helper.Agent.Service.{CachingAgent}
use credential_helper.Agent.Shutdown.{IsOrderly}
use credential_helper.Agent.Locate.{expand_path, lookup_path_env}
use credential_helper.Client.Keyring.{KeyringApi, Inputs, keyring_process, read_secret}
use credential_helper.Client.Keyring.Stored.{
  IsKeyring, reading, storing, reading_keyring, keyring_process-source_lookup,
}
use credential_helper.Build.Files.{Files, read, IsSound, link, open_file, create, write}
use credential_helper.Client.Installer.{System, install, hardlink_or_copy, destination}
use credential_helper.Client.Installer.Placed.{install-ok, install_over_itself}
use credential_helper.Client.Command.{Connected, client_process, client_command_process}
use credential_helper.Client.{foreground}
use credential_helper.Client.Served.{client_process-connected}
use credential_helper.Cache.Socket.{Ends}
use credential_helper.Cache.Mem.Laws.{new_mem_cache-IsValid}
use credential_helper.Agent.Refinement.{Served, agent_peer}
use credential_helper.Client.Command.Shutdown.{first_answer, client_command_process-shutdown}
use credential_helper.Tests.Agents.{machine}
use credential_helper.Tests.Caching.{
  agent, agent-IsOrderly, silent, connected, prints, request, configure,
}
use credential_helper.Tests.World.{Message, json, json-IsLosslessJson, time, world}

abbrev answered : Option Text → KeyringAnswer
answered none = absent
answered (some value) = secret value

abbrev dict_keyring : KeyringApi (Dict Text)
dict_keyring = record {
  get = λ service k. answered (lookup service k);
  set = λ service value k. (ok tt, insert service value k);
  delete = λ service k. (ok tt, removed service k);
}

dict_keyring-IsKeyring : IsKeyring dict_keyring
dict_keyring-IsKeyring service value k h =
    ground (arith, lookup-insert service service value k, text_eq_refl service)

abbrev inputs : Inputs
inputs = record { open_file = λ path. err (failure "no such file"); stdin = ok (lit "hunter2") }

abbrev token_source : Keyring
token_source = record {
  source = lit "keyring";
  service = lit "gh:github.com";
  binding = lit "default";
}

inputs-stdin : read_secret machine inputs [] [] ≡ ok (lit "hunter2")
unfolding read_secret
inputs-stdin = refl

stored_well :
    (keyring_process machine dict_keyring inputs [] (storing [] (lit "gh:github.com")) []).0
    ≡ ok (lit "Stored secret gh:github.com\n")
unfolding keyring_process read_secret lit
stored_well = refl

keyring_process-source_lookup_example :
    ((keyring_process machine dict_keyring inputs []
        (reading (lit "gh:github.com"))
        (keyring_process machine dict_keyring inputs [] (storing [] (lit "gh:github.com")) []).1).0
      ≡ ok (lit "hunter2"))
    × (source_lookup
          (reading_keyring world dict_keyring
            (keyring_process machine dict_keyring inputs []
              (storing [] (lit "gh:github.com"))
              []).1)
          (keyring token_source)
          (lit "default")
        ≡ ok (lit "hunter2"))
keyring_process-source_lookup_example =
    keyring_process-source_lookup machine dict_keyring inputs [] [] (lit "gh:github.com")
      (lit "hunter2") (lit "Stored secret gh:github.com\n") [] world token_source
      dict_keyring-IsKeyring inputs-stdin stored_well refl

abbrev now : Text → ℕ
now key = 5

ok-IsOrderly :
    (a : CachingAgent MemCache)
    → ◌≡◌ {A = Result (CachingAgent MemCache)} (ok agent) (ok a)
    → IsOrderly a
ok-IsOrderly a same = subst IsOrderly (ground (arith, same)) agent-IsOrderly

client_command_process-shutdown_example :
    ((client_command_process
        (first_answer (mem_cache time) json now)
        agent_request_shutdown
        none
        (ok agent)).0
      ≡ ok none)
    × ((a : CachingAgent MemCache)
        → (client_command_process
            (first_answer (mem_cache time) json now)
            agent_request_shutdown
            none
            (ok agent)).1
          ≡ some a
        → (a.shutdown_started ≡ true) × (a.closes ≡ 1))
client_command_process-shutdown_example =
    client_command_process-shutdown (mem_cache time) json now (ok agent) ok-IsOrderly

client_process-connected_example :
    ((client_process json
        (agent_peer time json now silent)
        silent
        prints
        (ok (Connected.connected connected))
        configure
        (ok request)).0
      ≡ (foreground (mem_cache time) prints configure (ok request) new_mem_cache).0)
    × (s : Ends (Served Message) (Unit {0})) × ((client_process json
          (agent_peer time json now silent)
          silent
          prints
          (ok (Connected.connected connected))
          configure
          (ok request)).1
        ≡ Connected.connected s)
    × (s.conn.agent.cache
        ≡ (foreground (mem_cache time) prints configure (ok request) new_mem_cache).1)
client_process-connected_example =
    client_process-connected time json now silent json-IsLosslessJson prints configure (ok request)
      connected new_mem_cache-IsValid

abbrev system : System
system = record {
  executable = ok (lit "/bin/ch");
  eval_symlinks = λ path. ok path;
  stat = λ path. ok tt;
  abs = λ path. ok path;
  dir = λ path. path;
  calls = record {
    link_refused = λ src dst now. true;
    open_error = λ path. none;
    create_error = λ path now. none;
    write_error = λ content. none;
    mkdir_error = λ path now. none;
    mkdir_all_error = λ path now. none;
  };
  remove_fails = false;
}

abbrev to_opt : Dict Text
to_opt = (lit "CREDENTIAL_HELPER_INSTALLER_DESTINATION", lit "/opt/ch") ∷ []

-- The program and the old one are two files.
abbrev disk : Files
disk = record {
  names = (lit "/bin/ch", 0) ∷ (lit "/opt/ch", 1) ∷ [];
  contents = λ i. if i == 0 then lit "new" else lit "old";
  next = 2;
  dirs = [];
}

disk-IsSound : IsSound disk
unfolding lookup
disk-IsSound path i there = ground arith

to_opt-destination : destination machine to_opt ≡ lit "/opt/ch"
unfolding lookup_path_env expand_path has_prefix lookup text_eq lit
to_opt-destination = refl

installed : (install machine system to_opt (lit "/bin/ch") disk).0 ≡ ok (lit "/opt/ch")
unfolding install hardlink_or_copy link open_file create write lookup_path_env expand_path
    has_prefix lookup text_eq lit keep
installed = refl

apart : lit "/bin/ch" ≢ destination machine to_opt
unfolding lookup_path_env expand_path has_prefix lookup text_eq lit
apart = λ e. ground arith

install-ok_example :
    (lit "/opt/ch" ≡ destination machine to_opt)
    × (content : Text) × (read (lit "/bin/ch") disk ≡ some content)
    × (read (lit "/opt/ch") (install machine system to_opt (lit "/bin/ch") disk).1 ≡ some content)
install-ok_example =
    install-ok machine system to_opt (lit "/bin/ch") (lit "/opt/ch") disk disk-IsSound apart
      (λ fails. absurd (ground arith)) installed

-- The destination is a hard link to the program, as the installer makes it, and cannot be removed:
-- the installation ends well, and leaves an empty file under both names.
abbrev linked : Files
linked = record disk { names = (lit "/bin/ch", 0) ∷ (lit "/opt/ch", 0) ∷ []; next = 1 }

abbrev stubborn : System
stubborn = record system { remove_fails = true }

emptied :
    ((install machine stubborn to_opt (lit "/bin/ch") linked).0 ≡ ok (lit "/opt/ch"))
    × (read (lit "/bin/ch") (install machine stubborn to_opt (lit "/bin/ch") linked).1 ≡ some [])
unfolding install hardlink_or_copy link open_file create write lookup_path_env expand_path
    has_prefix lookup text_eq lit keep
emptied = (refl, refl)

install_over_itself_example :
    ((dst : Text) → (install machine system to_opt (lit "/opt/ch") disk).0 ≢ ok dst)
    × (read (lit "/opt/ch") (install machine system to_opt (lit "/opt/ch") disk).1 ≡ none)
install_over_itself_example =
    install_over_itself machine system to_opt (lit "/opt/ch") disk to_opt-destination refl refl
