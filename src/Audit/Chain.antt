-- ===== src/Audit/Chain.antt =====
-- When the journal of sim/dem.py verifies.
use sec_oc.Base.{
  ℕ, suc, ◌+◌, ◌≤◌, ◌<◌, ◌≡◌, refl, sym, ap, ◌∙◌, String, true, List, [], ◌∷◌, ◌++◌, append_assoc,
  append-nil, length, length-append, arith, eq_iff,
}
use sec_oc.Audit.{
  Entry, Link, HashChainedLog, genesis, new_log, log, evict, chain_hash, verify_from,
  verify_integrity,
}

module _ (digest : String → Entry → String) where
  -- The links that a run of entries makes, from the hash `prev`.
  chain : String → List Entry → List Link
  chain prev [] = []
  chain prev (e ∷ es) = record { entry = e; hash = digest prev e } ∷ chain (digest prev e) es

  unfoldable pub log_all : List Entry → HashChainedLog → HashChainedLog
  log_all [] l = l
  log_all (e ∷ es) l = log_all es (log digest e l)

  length-chain : (prev : String) (es : List Entry) → length (chain prev es) ≡ length es
  unfolding chain
  length-chain prev [] = refl
  length-chain prev (e ∷ es) = omega (arith, length-chain (digest prev e) es)

  -- While there is room nothing is evicted.
  links-log :
      (e : Entry) (l : HashChainedLog)
      → length l.links < l.max_entries
      → (log digest e l).links ≡ l.links ++ record { entry = e; hash = digest l.prev_hash e } ∷ []
  unfolding log chain_hash evict
  links-log e l room =
      ground (arith, length-append l.links (record { entry = e; hash = digest l.prev_hash e } ∷ []))

  prev_hash-log :
      (e : Entry) (l : HashChainedLog) → (log digest e l).prev_hash ≡ digest l.prev_hash e
  unfolding log chain_hash
  prev_hash-log e l = refl

  max_entries-log : (e : Entry) (l : HashChainedLog) → (log digest e l).max_entries ≡ l.max_entries
  unfolding log
  max_entries-log e l = refl

  -- One more link in front of the rest.
  shift :
      (xs links : List Link) (e : Entry) (h : String) (es : List Entry)
      → links ≡ xs ++ record { entry = e; hash = digest h e } ∷ []
      → links ++ chain (digest h e) es ≡ xs ++ chain h (e ∷ es)
  unfolding chain
  shift xs links e h es eq =
      ap (λ ys. ys ++ chain (digest h e) es) eq
      ∙ append_assoc xs (record { entry = e; hash = digest h e } ∷ []) (chain (digest h e) es)

  length-links-log :
      (e : Entry) (l : HashChainedLog)
      → length l.links < l.max_entries
      → length (log digest e l).links ≡ length l.links + 1
  length-links-log e l room =
      ap length (links-log e l room)
      ∙ length-append l.links (record { entry = e; hash = digest l.prev_hash e } ∷ [])

  links-log_all :
      (es : List Entry) (l : HashChainedLog)
      → length l.links + length es ≤ l.max_entries
      → (log_all es l).links ≡ l.links ++ chain l.prev_hash es
  unfolding log_all
  links-log_all [] l room = unfold chain in rw append-nil
  links-log_all (e ∷ es) l room =
      let fits : length l.links < l.max_entries = omega arith in
      links-log_all es (log digest e l)
        (omega (arith, length-links-log e l fits, max_entries-log e l))
      ∙ ap (λ h. (log digest e l).links ++ chain h es) (prev_hash-log e l)
      ∙ shift l.links (log digest e l).links e l.prev_hash es (links-log e l fits)

  -- One entry too many, and the first link goes.
  links-log_evicts :
      (e : Entry) (x : Link) (xs : List Link) (l : HashChainedLog)
      → l.links ≡ x ∷ xs
      → length l.links ≡ l.max_entries
      → (log digest e l).links ≡ xs ++ record { entry = e; hash = digest l.prev_hash e } ∷ []
  unfolding log chain_hash evict
  links-log_evicts e x xs l first full =
      ground (arith, length-append l.links (record { entry = e; hash = digest l.prev_hash e } ∷ []))

  links-log_all_evicts :
      (e : Entry) (es : List Entry) (x : Link) (xs : List Link) (l : HashChainedLog)
      → l.links ≡ x ∷ xs
      → length l.links + length es ≡ l.max_entries
      → (log_all (e ∷ es) l).links ≡ xs ++ chain l.prev_hash (e ∷ es)
  unfolding log_all
  links-log_all_evicts e [] x xs l first full =
      unfold chain in links-log_evicts e x xs l first (omega arith)
  links-log_all_evicts e (f ∷ es) x xs l first full =
      let fits : length l.links < l.max_entries = omega arith in
      let next : (log digest e l).links
          ≡ x ∷ (xs ++ record { entry = e; hash = digest l.prev_hash e } ∷ []) =
        links-log e l fits
        ∙ ap (λ ys. ys ++ record { entry = e; hash = digest l.prev_hash e } ∷ []) first in
      links-log_all_evicts f es x _ (log digest e l) next
        (omega (arith, length-links-log e l fits, max_entries-log e l))
      ∙ ap (λ h. (xs ++ record { entry = e; hash = digest l.prev_hash e } ∷ []) ++ chain h (f ∷ es))
          (prev_hash-log e l)
      ∙ shift xs _ e l.prev_hash (f ∷ es) refl

  pub verify_from_inv :
      (prev : String) (e : Link) (links : List Link)
      → verify_from digest prev (e ∷ links) ≡ true
      → (e.hash ≡ digest prev e.entry) × (verify_from digest e.hash links ≡ true)
  unfolding verify_from
  verify_from_inv prev e links h = ground (arith, eq_iff e.hash (digest prev e.entry))

  verify_from-chain :
      (prev : String) (es : List Entry) → verify_from digest prev (chain prev es) ≡ true
  unfolding verify_from chain
  verify_from-chain prev [] = refl
  verify_from-chain prev (e ∷ es) =
      ground (arith, verify_from-chain (digest prev e) es, eq_iff (digest prev e) (digest prev e))

  -- A journal verifies as long as no more entries were logged than it has room for.
  pub verify_integrity-log_all :
      (max : ℕ) (es : List Entry)
      → length es ≤ max
      → verify_integrity digest (log_all es (new_log max)) ≡ true
  unfolding verify_integrity new_log
  verify_integrity-log_all max es room =
      ap (verify_from digest genesis) (links-log_all es (new_log max) (omega arith))
      ∙ verify_from-chain genesis es

  -- A journal that has evicted its first entry verifies only if the digest of the second entry is
  -- the same after the first hash and after the initial one: verification starts from the initial
  -- hash, which eviction does not move.
  pub verify_integrity_evicted :
      (first second : Entry) (es : List Entry)
      → verify_integrity digest (log_all (first ∷ second ∷ es) (new_log (suc (length es)))) ≡ true
      → digest (digest genesis first) second ≡ digest genesis second
  unfolding verify_integrity new_log log_all chain log chain_hash
  verify_integrity_evicted first second es h =
      let l = log digest first (new_log (suc (length es))) in
      let started = links-log first (new_log (suc (length es))) (omega arith) in
      let last =
        links-log_all_evicts second es (record { entry = first; hash = digest genesis first }) [] l
          started
          (omega (arith, length-links-log first (new_log (suc (length es))) (omega arith))) in
      let checked = ap (verify_from digest genesis) (sym last) ∙ h in
      (verify_from_inv genesis _ _ checked).0
