-- ===== src/Freshness/Window.antt =====
-- Which truncated values sim/freshness_manager.py accepts, and what it reads after a commit.
use native.Mathlib.Decide.{dec_lt}
use sec_oc.Base.{
  ℕ, ◌+◌, ◌%◌, ◌≤◌, ◌<◌, ◌≡◌, ◌≢◌, ◌↔◌, refl, sym, ap, ◌∙◌, String, true, false, ok, raised,
  Exception, arith, eq_iff, ok-injective, str_eq, if◌then◌else◌,
}
use sec_oc.Base.Bytes.{modulus, modulus_pos}
use sec_oc.Nvm.Store.{read-write}
use sec_oc.Nvm.{Nvm, read}
use sec_oc.Nvm.Values.{integer, as_int}
use sec_oc.Nvm.Keys.{
  last_valid_key, window_key, last_valid_key-injective, last_valid_key-ne-window_key,
}
use sec_oc.Freshness.{
  FreshnessManager, load_last_valid_freshness, reconstruct, in_window, validate_freshness,
  commit_freshness, reinitialize_window,
}
use sec_oc.Freshness.Residue.{residue_unique, reconstruct_bounds, reconstruct-mod, reconstruct_self}

-- `last` is the freshness value that the memory holds for the PDU.
abbrev pub LastValid : String → Nvm → ℕ → Type 0
LastValid pdu_id nvm last = as_int (load_last_valid_freshness pdu_id nvm) ≡ ok last

pub in_window_iff :
    (window last c v : ℕ)
    → (in_window window last c ≡ (true, v)) ↔ ((c ≡ v) × (last < v) × (v ≤ last + window))
unfolding in_window
in_window_iff window last c v = ground arith

pub in_window-false : (window last c : ℕ) → last + window < c → in_window window last c ≡ (false, 0)
unfolding in_window
in_window-false window last c h = ground arith

pub in_window_outside :
    (window last c v : ℕ) → in_window window last c ≡ (false, v) → last < c → last + window < c
unfolding in_window
in_window_outside window last c v h l = ground arith

pub validate_freshness_raises :
    (fm : FreshnessManager) (pdu_id : String) (nvm : Nvm) (t : ℕ) (e : Exception)
    → as_int (load_last_valid_freshness pdu_id nvm) ≡ raised e
    → validate_freshness fm pdu_id t nvm ≡ raised e
unfolding validate_freshness
validate_freshness_raises fm pdu_id nvm t e h = rw h

module _ (fm : FreshnessManager) (pdu_id : String) (nvm : Nvm) (last t : ℕ) where
  abbrev m : ℕ
  m = modulus fm.freshness_length

  pub validate_freshness_lem :
      LastValid pdu_id nvm last
      → validate_freshness fm pdu_id t nvm
        ≡ ok (in_window fm.window_size last (reconstruct m last t))
  unfolding validate_freshness
  validate_freshness_lem h = rw h

  -- Two numbers within one period above `last` that share a residue are one number.
  same_in_period :
      (a b : ℕ) → a % m ≡ b % m → last < a → a ≤ last + m → last < b → b ≤ last + m → a ≡ b
  same_in_period a b e la am lb bm = elim (dec_lt a b) [
    | yes p ↦ residue_unique m a b e (omega arith) (omega arith)
    | no p ↦ sym (residue_unique m b a (sym e) (omega arith) (omega arith))
  ]

  -- If the window is no longer than the period of the truncated counter and the field holds a
  -- truncated value, validation accepts it as `v` exactly when `v` lies strictly above the last
  -- accepted value, at most `window_size` above it, and truncates to the field.
  pub validate_freshness_iff :
      (v : ℕ)
      → LastValid pdu_id nvm last
      → t < m
      → fm.window_size ≤ m
      → (validate_freshness fm pdu_id t nvm ≡ ok (true, v))
        ↔ ((last < v) × (v ≤ last + fm.window_size) × (v % m ≡ t))
  validate_freshness_iff v h small narrow = (accepted, accepts)
    where
      bounds : (last < reconstruct m last t) × (reconstruct m last t ≤ last + m)
      bounds = reconstruct_bounds m last t small

      residue : reconstruct m last t % m ≡ t
      residue = reconstruct-mod m last t small

      accepted :
          validate_freshness fm pdu_id t nvm ≡ ok (true, v)
          → (last < v) × (v ≤ last + fm.window_size) × (v % m ≡ t)
      accepted e =
          let w : in_window fm.window_size last (reconstruct m last t) ≡ (true, v) =
            ok-injective (sym (validate_freshness_lem h) ∙ e) in
          let (c, lo, hi) = (in_window_iff fm.window_size last (reconstruct m last t) v).0 w in
          (lo, hi, ap (λ n. n % m) (sym c) ∙ residue)

      accepts :
          (last < v) × (v ≤ last + fm.window_size) × (v % m ≡ t)
          → validate_freshness fm pdu_id t nvm ≡ ok (true, v)
      accepts (lo, hi, r) =
          let c : reconstruct m last t ≡ v =
            same_in_period (reconstruct m last t) v (residue ∙ sym r) bounds.0 bounds.1 lo
              (omega arith) in
          validate_freshness_lem h
          ∙ ap ok ((in_window_iff fm.window_size last (reconstruct m last t) v).1 (c, lo, hi))

  -- A field that repeats the last accepted value is rejected, if the window is shorter than the
  -- period of the truncated counter.
  pub validate_freshness-replay :
      LastValid pdu_id nvm last
      → t ≡ last % m
      → fm.window_size < m
      → validate_freshness fm pdu_id t nvm ≡ ok (false, 0)
  validate_freshness-replay h e short =
      let far : reconstruct m last t ≡ last + m = rw e (reconstruct_self m last) in
      validate_freshness_lem h
      ∙ ap ok (
          in_window-false fm.window_size last (reconstruct m last t)
            (omega (arith, modulus_pos fm.freshness_length)))

-- A commit changes the last accepted value of its own PDU and of no other.
pub load-commit_freshness :
    (p q : String) (v : ℕ) (nvm : Nvm)
    → load_last_valid_freshness q (commit_freshness p v nvm)
      ≡ (if str_eq p q then integer v else load_last_valid_freshness q nvm)
unfolding load_last_valid_freshness commit_freshness
load-commit_freshness p q v nvm = simp read-write (
    ground (
      arith,
      eq_iff (last_valid_key p) (last_valid_key q),
      eq_iff (window_key p) (last_valid_key q),
      eq_iff p q,
      last_valid_key-injective p q,
      last_valid_key-ne-window_key q p,
    ))

pub LastValid-commit_freshness :
    (p : String) (v : ℕ) (nvm : Nvm) → LastValid p (commit_freshness p v nvm) v
LastValid-commit_freshness p v nvm = rw (load-commit_freshness p p v nvm, (eq_iff p p).1 refl)

pub load-commit_freshness_ne :
    (p q : String) (v : ℕ) (nvm : Nvm)
    → p ≢ q
    → load_last_valid_freshness q (commit_freshness p v nvm) ≡ load_last_valid_freshness q nvm
load-commit_freshness_ne p q v nvm ne = ground (arith, load-commit_freshness p q v nvm, eq_iff p q)

-- Resynchronisation and commit write the same: the value becomes the last accepted one.
pub LastValid-reinitialize_window :
    (p : String) (v : ℕ) (nvm : Nvm) → LastValid p (reinitialize_window p v nvm) v
unfolding reinitialize_window
LastValid-reinitialize_window p v nvm =
    unfold commit_freshness in LastValid-commit_freshness p v nvm

-- The last accepted value of a PDU depends on its own entry alone.
pub load_last_valid_freshness-read :
    (p : String) (nvm nvm' : Nvm)
    → read (last_valid_key p) (integer 0) nvm' ≡ read (last_valid_key p) (integer 0) nvm
    → load_last_valid_freshness p nvm' ≡ load_last_valid_freshness p nvm
unfolding load_last_valid_freshness
load_last_valid_freshness-read p nvm nvm' same = same

-- A PDU without an entry starts at 0.
pub LastValid_new :
    (p : String) (nvm : Nvm)
    → read (last_valid_key p) (integer 0) nvm ≡ integer 0
    → LastValid p nvm 0
unfolding load_last_valid_freshness
LastValid_new p nvm empty = rw empty refl
