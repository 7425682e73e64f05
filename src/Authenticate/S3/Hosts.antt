-- ===== src/Authenticate/S3/Hosts.antt =====
-- The region of the well-known form of a bucket's host.
use credential_helper.Base.{
  ◌≡◌, ◌≢◌, refl, sym, ap, ◌∙◌, Bool, true, false, none, List, [], ◌∷◌, ◌++◌, arith, append_assoc,
}
use credential_helper.Text.{Text, lit, text_eq, text_eq_iff}
use credential_helper.Text.Affix.{
  has_prefix, has_suffix, trim_suffix, trim_prefix, trim_prefix_split, trim_suffix_split,
  has_suffix-append, trim_suffix-append,
}
use credential_helper.Text.Parts.{split, join}
use credential_helper.Text.Parts.Laws.{IsFree, split-append, split-join}
use credential_helper.Authenticate.S3.Region.{aws_legacy_global_region, region_from_host}

-- the labels of a host
abbrev labels : Text → Text → List Text
labels bucket region = bucket ∷ lit "s3" ∷ region ∷ lit "amazonaws" ∷ lit "com" ∷ []

-- <bucket>.s3.<region>.amazonaws.com
abbrev pub bucket_host : Text → Text → Text
bucket_host bucket region = join b'.' (labels bucket region)

-- the last three of five labels
last_three :
    (parts : List Text) (a b c d e x y z : Text)
    → parts ++ x ∷ y ∷ z ∷ [] ≡ a ∷ b ∷ c ∷ d ∷ e ∷ []
    → (x ≡ c) × (y ≡ d)
last_three [] a b c d e x y z h = ground arith
last_three (p ∷ []) a b c d e x y z h = ground arith
last_three (p ∷ q ∷ []) a b c d e x y z h = ground arith
last_three (p ∷ q ∷ r ∷ []) a b c d e x y z h = ground arith
last_three (p ∷ q ∷ r ∷ s ∷ []) a b c d e x y z h = ground arith
last_three (p ∷ q ∷ r ∷ s ∷ t ∷ []) a b c d e x y z h = ground arith
last_three (p ∷ q ∷ r ∷ s ∷ t ∷ u ∷ rest) a b c d e x y z h = ground arith

s3-IsFree : IsFree b'.' (lit "s3")
unfolding lit
s3-IsFree = (refl, (refl, tt))

amazonaws-IsFree : IsFree b'.' (lit "amazonaws")
unfolding lit
amazonaws-IsFree = (refl, (refl, (refl, (refl, (refl, (refl, (refl, (refl, (refl, tt)))))))))

com-IsFree : IsFree b'.' (lit "com")
unfolding lit
com-IsFree = (refl, (refl, (refl, tt)))

other_name : lit "cloudflarestorage" ≢ lit "amazonaws"
unfolding lit
other_name h = ground arith

too_short : {a b c d e x y z : Text} → a ∷ b ∷ c ∷ d ∷ e ∷ [] ≢ x ∷ y ∷ z ∷ []
too_short h = ground arith

-- a text that ends in a dot and three labels
split-ends :
    (t p q r : Text)
    → IsFree b'.' p
    → IsFree b'.' q
    → IsFree b'.' r
    → split b'.' (t ++ b'.' ∷ join b'.' (p ∷ q ∷ r ∷ [])) ≡ split b'.' t ++ p ∷ q ∷ r ∷ []
split-ends t p q r hp hq hr =
    split-append b'.' t (join b'.' (p ∷ q ∷ r ∷ []))
    ∙ ap (λ ps. split b'.' t ++ ps) (split-join b'.' p (q ∷ r ∷ []) (hp, (hq, (hr, tt))))

false-unless : (t : Bool) → (t ≢ true) → t ≡ false
false-unless true h = absurd (h refl)
false-unless false h = refl

module _ (bucket region : Text) (b : IsFree b'.' bucket) (r : IsFree b'.' region) where
  split-bucket_host : split b'.' (bucket_host bucket region) ≡ labels bucket region
  split-bucket_host =
      split-join b'.' bucket (lit "s3" ∷ region ∷ lit "amazonaws" ∷ lit "com" ∷ [])
        (b, (s3-IsFree, (r, (amazonaws-IsFree, (com-IsFree, tt)))))

  bucket_host_split :
      bucket_host bucket region
      ≡ join b'.' (bucket ∷ lit "s3" ∷ region ∷ []) ++ lit ".amazonaws.com"
  unfolding join lit
  bucket_host_split = sym (append_assoc bucket _ _)

  -- what a suffix of three labels says
  ends_with :
      (p q r : Text)
      → IsFree b'.' p
      → IsFree b'.' q
      → IsFree b'.' r
      → has_suffix (bucket_host bucket region) (b'.' ∷ join b'.' (p ∷ q ∷ r ∷ [])) ≡ true
      → (p ≡ region) × (q ≡ lit "amazonaws")
  ends_with p q r hp hq hr h =
      let suffix = b'.' ∷ join b'.' (p ∷ q ∷ r ∷ []) in
      let t = trim_suffix (bucket_host bucket region) suffix in
      last_three (split b'.' t) bucket (lit "s3") region (lit "amazonaws") (lit "com") p q r (
        sym (split-ends t p q r hp hq hr)
        ∙ (ap (split b'.') (sym (trim_suffix_split (bucket_host bucket region) suffix h))
            ∙ split-bucket_host))

  not_r2 : has_suffix (bucket_host bucket region) (lit ".r2.cloudflarestorage.com") ≡ false
  unfolding lit join
  not_r2 = false-unless _ (λ h.
      other_name
        (ends_with (lit "r2") (lit "cloudflarestorage") (lit "com") (refl, (refl, tt))
          (ground arith) com-IsFree h).1)

  not_legacy_suffix :
      region ≢ lit "s3" → has_suffix (bucket_host bucket region) (lit ".s3.amazonaws.com") ≡ false
  unfolding lit join
  not_legacy_suffix other = false-unless _ (λ h. other (
      sym
        (ends_with (lit "s3") (lit "amazonaws") (lit "com") s3-IsFree amazonaws-IsFree com-IsFree
          h).0))

  not_legacy_host : text_eq (bucket_host bucket region) (lit "s3.amazonaws.com") ≡ false
  unfolding lit join
  not_legacy_host = false-unless _ (λ h. too_short (
      sym split-bucket_host
      ∙ (ap (split b'.') ((text_eq_iff _ _).0 h)
          ∙ split-join b'.' (lit "s3") (lit "amazonaws" ∷ lit "com" ∷ [])
              (s3-IsFree, (amazonaws-IsFree, (com-IsFree, tt))))))

  not_legacy : region ≢ lit "s3" → aws_legacy_global_region (bucket_host bucket region) ≡ none
  unfolding aws_legacy_global_region
  not_legacy other = ground (arith, not_legacy_host, not_legacy_suffix other)

  split_short :
      split b'.' (join b'.' (bucket ∷ lit "s3" ∷ region ∷ [])) ≡ bucket ∷ lit "s3" ∷ region ∷ []
  split_short = split-join b'.' bucket (lit "s3" ∷ region ∷ []) (b, (s3-IsFree, (r, tt)))

  not_path_style :
      bucket ≢ lit "s3"
      → has_prefix (join b'.' (bucket ∷ lit "s3" ∷ region ∷ [])) (lit "s3.") ≡ false
  unfolding lit split
  not_path_style other = false-unless _ (λ h.
      let host = join b'.' (bucket ∷ lit "s3" ∷ region ∷ []) in
      let rest = trim_prefix host (lit "s3.") in
      let starts : bucket ∷ lit "s3" ∷ region ∷ [] ≡ lit "s3" ∷ split b'.' rest =
        sym split_short
        ∙ (ap (split b'.') (trim_prefix_split host (lit "s3.") h)
            ∙ split-append b'.' (lit "s3") rest) in
      other (ground (arith, starts)))

  -- The region of <bucket>.s3.<region>.amazonaws.com is <region>, if neither the bucket nor the region
  -- has a dot or is "s3".
  pub region_from_host-bucket_host :
      bucket ≢ lit "s3" → region ≢ lit "s3" → region_from_host (bucket_host bucket region) ≡ region
  unfolding region_from_host
  region_from_host-bucket_host other other' = ground (
    arith,
    not_r2,
    not_legacy other',
    not_path_style other,
    split_short,
    bucket_host_split,
    has_suffix-append (join b'.' (bucket ∷ lit "s3" ∷ region ∷ [])) (lit ".amazonaws.com"),
    trim_suffix-append (join b'.' (bucket ∷ lit "s3" ∷ region ∷ [])) (lit ".amazonaws.com"),
  )
