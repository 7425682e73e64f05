-- ===== src/Build/Registry/Archive/Apart.antt =====
-- A file that is extracted is not written again under another name.
use credential_helper.Base.{ℕ, ◌≡◌, ◌≢◌, ◌≤◌, some, arith, inl, inr, Option-cases}
use credential_helper.Text.{Text, text_eq_iff, text_eq_refl}
use credential_helper.Dict.{lookup, lookup-insert}
use credential_helper.Errors.{ok}
use credential_helper.Build.Files.{Files, Calls, IsSound, create}

-- The files from that number on have one name each.
pub record IsApart (base : ℕ) (files : Files) : Type 0 where
  pub sound : IsSound files
  pub apart :
      (p q : Text) (i : ℕ)
      → base ≤ i
      → lookup p files.names ≡ some i
      → lookup q files.names ≡ some i
      → p ≡ q

-- The name stands for the file of that number, which is from `base` on, with that content.
pub record Holds (base number : ℕ) (path content : Text) (files : Files) : Type 0 where
  pub above : base ≤ number
  pub named : lookup path files.names ≡ some number
  pub filled : files.contents number ≡ content

module _ (calls : Calls) (base : ℕ) (files : Files) where
  pub create-IsApart :
      (path : Text)
      → base ≤ files.next
      → IsApart base files
      → IsApart base (create calls path files).1
  unfolding create
  create-IsApart path grows h = record {
    sound = λ p i there.
        ground (arith, there, h.sound p i, lookup-insert path p files.next files.names);
    apart = λ p q i above at_p at_q. ground (
      arith,
      at_p,
      at_q,
      above,
      h.apart p q i above,
      h.sound p i,
      h.sound q i,
      lookup-insert path p files.next files.names,
      lookup-insert path q files.next files.names,
      text_eq_iff path p,
      text_eq_iff path q,
    );
  }

  pub create-Holds :
      (path other content : Text) (n : ℕ)
      → other ≢ path
      → IsApart base files
      → Holds base n other content files
      → Holds base n other content (create calls path files).1
  unfolding create
  create-Holds path other content n differs h holds = record {
    above = holds.above;
    named = ground (
      arith,
      holds.named,
      differs,
      lookup-insert path other files.next files.names,
      text_eq_iff path other,
    );
    filled = elim (Option-cases (lookup path files.names)) [
      | inl new ↦ ground (arith, new, holds.filled, h.sound other n holds.named)
      | inr (j, there) ↦ ground (
        arith,
        there,
        differs,
        holds.filled,
        holds.named,
        holds.above,
        h.apart other path n holds.above holds.named,
      )
    ];
  }

  -- the new file is another one
  pub create-differs :
      (path other content : Text) (n : ℕ) {i : ℕ}
      → other ≢ path
      → IsApart base files
      → Holds base n other content files
      → (create calls path files).0 ≡ ok i
      → n ≢ i
  unfolding create
  create-differs path other content n {i} differs h holds made =
      elim (Option-cases (lookup path files.names)) [
        | inl new ↦ ground (arith, new, made, h.sound other n holds.named)
        | inr (j, there) ↦
            ground (
              arith,
              there,
              made,
              differs,
              holds.named,
              h.apart other path n holds.above holds.named,
            )
      ]

  pub create-named :
      (path : Text) {i : ℕ}
      → (create calls path files).0 ≡ ok i
      → lookup path (create calls path files).1.names ≡ some i
  unfolding create
  create-named path {i} made =
      ground (arith, made, lookup-insert path path files.next files.names, text_eq_refl path)
