-- ===== src/Audit/Collision.antt =====
-- What it takes to change the journal of sim/dem.py and keep its hashes.
use sec_oc.Base.{
  ◌≡◌, ◌≢◌, refl, sym, ap, ◌∙◌, String, Bool, true, false, List, [], ◌∷◌, ◌==◌, ==_iff, arith,
  eq_iff, str_eq, if◌then◌else◌, Bool-cases, inl, inr, ◌⊎◌, ◌↔◌,
}
use sec_oc.Audit.{Entry, Link, verify_from}
use sec_oc.Audit.Chain.{verify_from_inv}

-- Two journals have the same hashes, entry for entry.
abbrev pub SameHashes : List Link → List Link → Type 0
SameHashes [] [] = Unit
SameHashes [] (y ∷ ys) = ⊥
SameHashes (x ∷ xs) [] = ⊥
SameHashes (x ∷ xs) (y ∷ ys) = (x.hash ≡ y.hash) × SameHashes xs ys

-- At one position, after the hash `prev` of the entry before, the journals have these entries.
pub data At : String → List Link → List Link → String → Entry → Entry → Type 0 where
  here :
      {prev : String} {x y : Link} {xs ys : List Link}
      → At prev (x ∷ xs) (y ∷ ys) prev x.entry y.entry
  there :
      {prev h : String} {x y : Link} {xs ys : List Link} {old new : Entry}
      → At x.hash xs ys h old new
      → At prev (x ∷ xs) (y ∷ ys) h old new

same_entry : Entry → Entry → Bool
same_entry a b =
    if str_eq a.event b.event
    then (if a.timestamp == b.timestamp then str_eq a.detail b.detail else false)
    else false

same_entry_iff : (a b : Entry) → (same_entry a b ≡ true) ↔ (a ≡ b)
unfolding same_entry
same_entry_iff a b = (
  λ h.
      ground
        (arith, eq_iff a.event b.event, ==_iff a.timestamp b.timestamp, eq_iff a.detail b.detail),
  λ e. rw e (
      ground
        (arith, eq_iff b.event b.event, ==_iff b.timestamp b.timestamp, eq_iff b.detail b.detail)),
)

-- Entries with one digest after the same hash, that are not the same.
pub record Collision (digest : String → Entry → String) (prev : String) (xs ys : List Link)
    : Type 0 where
  pub before : String
  pub old : Entry
  pub new : Entry
  pub position : At prev xs ys before old new
  pub other : old ≢ new
  pub collides : digest before old ≡ digest before new

module _ (digest : String → Entry → String) where
  later :
      {prev : String} {x y : Link} {xs ys : List Link}
      → x ≡ y
      → (xs ≡ ys) ⊎ Collision digest x.hash xs ys
      → (x ∷ xs ≡ y ∷ ys) ⊎ Collision digest prev (x ∷ xs) (y ∷ ys)
  later {x = x} same (inl rest) = inl (cc)
  later same (inr c) = inr (record {
    before = c.before;
    old = c.old;
    new = c.new;
    position = At.there c.position;
    other = c.other;
    collides = c.collides;
  })

  -- Two journals that both verify from one hash and have the same hashes, entry for entry, are the
  -- same journal; or at some position they have two different entries whose digests are equal after
  -- the hash that stands before that position in the journal.
  pub verify_from_tampered :
      (prev : String) (xs ys : List Link)
      → SameHashes xs ys
      → verify_from digest prev xs ≡ true
      → verify_from digest prev ys ≡ true
      → (xs ≡ ys) ⊎ Collision digest prev xs ys
  verify_from_tampered prev [] [] same h k = inl refl
  verify_from_tampered prev [] (y ∷ ys) same h k = absurd same
  verify_from_tampered prev (x ∷ xs) [] same h k = absurd same
  verify_from_tampered prev (x ∷ xs) (y ∷ ys) (one, same) h k =
      let (made, h') = verify_from_inv digest prev x xs h in
      let (made2, k') = verify_from_inv digest prev y ys k in
      let rest =
        verify_from_tampered x.hash xs ys same h' (ap (λ c. verify_from digest c ys) one ∙ k') in
      elim (Bool-cases (same_entry x.entry y.entry)) [
        | inl e ↦
            let entries = (same_entry_iff x.entry y.entry).0 e in
            later
              (ap (λ e. record { entry = e; hash = x.hash }) entries
                ∙ ap (λ c. record { entry = y.entry; hash = c }) one)
              rest
        | inr other ↦ inr (record {
          before = prev;
          old = x.entry;
          new = y.entry;
          position = At.here;
          other = λ e. let same_true = (same_entry_iff x.entry y.entry).1 e in cc;
          collides = sym made ∙ one ∙ made2;
        })
      ]
