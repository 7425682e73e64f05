-- ===== src/Client/Keyring/Stored.antt =====
-- A secret that was set up is the one that the lookup chain finds.
use credential_helper.Base.{◌≡◌, refl, true, false, [], ◌∷◌, arith}
use credential_helper.Text.{Text, text_eq_refl}
use credential_helper.Dict.{Dict}
use credential_helper.Errors.{ok}
use credential_helper.Agent.Locate.{Machine}
use credential_helper.Lookup.Source.{secret, keyring, Keyring, Secrets, source_lookup, bound_value}
use credential_helper.Client.Keyring.{Flags, KeyringApi, Inputs, read_secret, keyring_process}

-- `Get` reads what `Set` wrote.
abbrev pub IsKeyring : {K : Type 0} → KeyringApi K → Type 0
IsKeyring {K} api =
    (service value : Text) (k : K)
    → (api.set service value k).0 ≡ ok tt
    → api.get service (api.set service value k).1 ≡ secret value

-- the flags `--read service` and `service`
abbrev pub reading : Text → Flags
reading service = record { source_file_path = []; read = true; clear = false; args = service ∷ [] }

abbrev pub storing : Text → Text → Flags
storing path service = record {
  source_file_path = path;
  read = false;
  clear = false;
  args = service ∷ [];
}

-- the secrets of a process, with the keyring in a given state
abbrev pub reading_keyring : {K : Type 0} → Secrets → KeyringApi K → K → Secrets
reading_keyring world api k = record world { keyring = λ service. api.get service k }

module _ {K : Type 0} (m : Machine) (api : KeyringApi K) (inputs : Inputs) (env : Dict Text) where
  finds :
      (world : Secrets) (source : Keyring) (value : Text) (k : K)
      → api.get source.service k ≡ secret value
      → source_lookup (reading_keyring world api k) (keyring source) source.binding ≡ ok value
  unfolding source_lookup bound_value
  finds world source value k there = rw (text_eq_refl source.binding, there) refl

  stores :
      (path service value said : Text) (k : K)
      → read_secret m inputs env path ≡ ok value
      → (keyring_process m api inputs env (storing path service) k).0 ≡ ok said
      → ((api.set service value k).0 ≡ ok tt)
        × ((keyring_process m api inputs env (storing path service) k).1
            ≡ (api.set service value k).1)
  unfolding keyring_process
  stores path service value said k read stored = (ground (arith, read), ground (arith, read))

  -- A run of setup-keyring that ends well stored what its source holds: `--read` prints it, and a
  -- keyring source with the same service gives it to a lookup for its binding, for a keyring whose
  -- `Get` reads what `Set` wrote.
  pub keyring_process-source_lookup :
      (path service value said : Text) (k : K) (world : Secrets) (source : Keyring)
      → IsKeyring api
      → read_secret m inputs env path ≡ ok value
      → (keyring_process m api inputs env (storing path service) k).0 ≡ ok said
      → source.service ≡ service
      → ((keyring_process m api inputs env
            (reading service)
            (keyring_process m api inputs env (storing path service) k).1).0
          ≡ ok value)
        × (source_lookup
              (reading_keyring world api
                (keyring_process m api inputs env (storing path service) k).1)
              (keyring source)
              source.binding
            ≡ ok value)
  unfolding keyring_process
  keyring_process-source_lookup path service value said k world source good read stored same =
      let (set, state) = stores path service value said k read stored in
      let there = good service value k set in
      rw state (
        ground (arith, there),
        finds world source value (api.set service value k).1 (rw same there),
      )
