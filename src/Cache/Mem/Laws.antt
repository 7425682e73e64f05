-- ===== src/Cache/Mem/Laws.antt =====
-- What is read from the in-memory cache after each of its operations.
use credential_helper.Base.{
  ℕ, ◌≤◌, ◌≡◌, ◌≢◌, ◌↔◌, ◌⊎◌, refl, subst, true, some, [], ◌∷◌, arith, Option-cases, Bool-cases,
  inl, inr,
}
use credential_helper.Text.{Text, is_empty, text_eq, text_eq_iff, text_eq_refl}
use credential_helper.Dict.{lookup, IsMap, lookup-insert, lookup-keep, insert-IsMap, keep-IsMap}
use credential_helper.Errors.{ok}
use credential_helper.Api.{GetCredentialsResponse, CachableGetCredentialsResponse, Rfc3339}
use credential_helper.Cache.Mem.{
  MemCache, new_mem_cache, retrieve, is_cachable, store, survives, prune,
}

-- Every entry lies under its own key, and could have been stored.
pub record IsValid (c : MemCache) : Type 0 where
  pub one_each : IsMap c.cache
  pub at_key :
      (k : Text) (v : CachableGetCredentialsResponse)
      → lookup k c.cache ≡ some v
      → (v.cache_key ≡ k) × (is_cachable v ≡ true)

pub new_mem_cache-IsValid : IsValid new_mem_cache
unfolding lookup
new_mem_cache-IsValid = record { one_each = tt; at_key = λ k v e. absurd (ground arith) }

-- `Store` keeps the cache well-formed: one pair for each key, each entry under its own key, and
-- only entries that the guard lets in.
pub store-IsValid :
    (v : CachableGetCredentialsResponse) {c : MemCache} → IsValid c → IsValid (store v c).1
unfolding store
store-IsValid v {c} h = elim (Bool-cases (is_cachable v)) [
  | inl good ↦ rw good (record {
    one_each = insert-IsMap v.cache_key v c.cache h.one_each;
    at_key = λ k w e.
        ground
          (arith, h.at_key k w, lookup-insert v.cache_key k v c.cache, text_eq_iff v.cache_key k);
  })
  | inr bad ↦ rw bad h
]

-- The entry's own key reads as its response if the guard lets it in.
pub retrieve-store_self :
    (v : CachableGetCredentialsResponse) (c : MemCache)
    → is_cachable v ≡ true
    → (retrieve v.cache_key (store v c).1).0 ≡ ok v.response
unfolding retrieve store
retrieve-store_self v c good =
    ground (arith, lookup-insert v.cache_key v.cache_key v c.cache, text_eq_refl v.cache_key)

is_empty_iff : (t : Text) → (is_empty t ≡ true) ↔ (t ≡ [])
is_empty_iff [] = (λ h. refl, λ h. refl)
is_empty_iff (x ∷ t) = (λ h. cc, λ h. cc)

-- After `Store` of an entry either the entry has a key and an expiry time, the key is its own, and
-- reads as its response; or the entry lacks a key or an expiry time, or the key is another, and it
-- reads as before.
pub retrieve-store :
    (v : CachableGetCredentialsResponse) (k : Text) (c : MemCache)
    → ((v.cache_key ≢ [])
        × (v.response.expires ≢ [])
        × (v.cache_key ≡ k)
        × ((retrieve k (store v c).1).0 ≡ ok v.response))
      ⊎ (((v.cache_key ≡ []) ⊎ ((v.response.expires ≡ []) ⊎ (v.cache_key ≢ k)))
          × ((retrieve k (store v c).1).0 ≡ (retrieve k c).0))
unfolding retrieve store
retrieve-store v k c = elim (Bool-cases (is_empty v.cache_key)) [
  | inl no_key ↦ inr (inl ((is_empty_iff v.cache_key).0 no_key), ground (arith, no_key))
  | inr has_key ↦ elim (Bool-cases (is_empty v.response.expires)) [
    | inl no_expiry ↦ inr (
      inr (inl ((is_empty_iff v.response.expires).0 no_expiry)),
      ground (arith, has_key, no_expiry),
    )
    | inr expires ↦ elim (Bool-cases (text_eq v.cache_key k)) [
      | inl own ↦ inl (
        λ e. ground (arith, (is_empty_iff v.cache_key).1 e),
        λ e. ground (arith, (is_empty_iff v.response.expires).1 e),
        (text_eq_iff v.cache_key k).0 own,
        ground (arith, has_key, expires, own, lookup-insert v.cache_key k v c.cache),
      )
      | inr other ↦ inr (
        inr (inr (λ e. ground (arith, other, (text_eq_iff v.cache_key k).1 e))),
        ground (arith, has_key, expires, other, lookup-insert v.cache_key k v c.cache),
      )
    ]
  ]
]

module _ (time : Rfc3339) (now : Text → ℕ) where
  -- The expiry time can be read, and has not passed when the clock is read for the key.
  abbrev pub IsFresh : Text → GetCredentialsResponse → Type 0
  IsFresh k r = (ts : ℕ) × (time.parse r.expires ≡ some ts) × (now k ≤ ts)

  survives-IsFresh :
      (k : Text) (v : CachableGetCredentialsResponse)
      → survives time now k v ≡ true
      → IsFresh k v.response
  unfolding survives
  survives-IsFresh k v h = elim (Option-cases (time.parse v.response.expires)) [
    | inl bad ↦ ground arith
    | inr (ts, good) ↦ (ts, good, ground arith)
  ]

  IsFresh-survives :
      (k : Text) (v : CachableGetCredentialsResponse)
      → IsFresh k v.response
      → survives time now k v ≡ true
  unfolding survives
  IsFresh-survives k v (ts, good, later) = rw (good, survives) (ground arith)

  pub prune-IsValid : {c : MemCache} → IsValid c → IsValid (prune time now c).1
  unfolding prune
  prune-IsValid {c} h = record {
    one_each = keep-IsMap (survives time now) c.cache h.one_each;
    at_key =
        λ k w e. ground (arith, lookup-keep (survives time now) k c.cache h.one_each, h.at_key k w);
  }

  retrieve-prune_sound :
      (k : Text) (r : GetCredentialsResponse) {c : MemCache}
      → IsValid c
      → (retrieve k (prune time now c).1).0 ≡ ok r
      → ((retrieve k c).0 ≡ ok r) × IsFresh k r
  unfolding retrieve prune
  retrieve-prune_sound k r {c} v h = elim (Option-cases (lookup k c.cache)) [
    | inl missing ↦ ground (arith, lookup-keep (survives time now) k c.cache v.one_each)
    | inr (w, found_w) ↦
        let law = lookup-keep (survives time now) k c.cache v.one_each in
        let lives : survives time now k w ≡ true = ground (arith, law) in
        let same : w.response ≡ r = ground (arith, law) in
        (ground arith, subst (IsFresh k) same (survives-IsFresh k w lives))
  ]

  retrieve-prune_complete :
      (k : Text) (r : GetCredentialsResponse) {c : MemCache}
      → IsValid c
      → (retrieve k c).0 ≡ ok r
      → IsFresh k r
      → (retrieve k (prune time now c).1).0 ≡ ok r
  unfolding retrieve prune
  retrieve-prune_complete k r {c} v h f = elim (Option-cases (lookup k c.cache)) [
    | inl missing ↦ ground arith
    | inr (w, found_w) ↦
        let same : r ≡ w.response = ground arith in
        let lives = IsFresh-survives k w (subst (IsFresh k) same f) in
        ground (arith, lookup-keep (survives time now) k c.cache v.one_each)
  ]

  -- After `Prune` a key reads as a response exactly when it did before and the response's expiry
  -- time can be parsed and has not passed at the clock reading for that key.
  pub retrieve-prune_iff :
      (k : Text) (r : GetCredentialsResponse) {c : MemCache}
      → IsValid c
      → ((retrieve k (prune time now c).1).0 ≡ ok r) ↔ (((retrieve k c).0 ≡ ok r) × IsFresh k r)
  retrieve-prune_iff k r v =
      (retrieve-prune_sound k r v, λ (h, f). retrieve-prune_complete k r v h f)
