-- ===== src/Api/Provision.antt =====
-- The loop of `_provision_keys` in api/state.py: which keys it makes, and what it leaves alone.
use mathlib.Core.Path.{subst}
use sec_oc.Base.{
  ◌≡◌, ◌≢◌, refl, ap, ◌∙◌, ◌⊎◌, inl, inr, String, false, some, [], ◌∷◌, arith, Bool-cases, str_eq,
  eq_iff,
}
use sec_oc.Base.{ok, raised, key_error}
use sec_oc.Base.Dict.{Dict, lookup}
use sec_oc.Keys.{resolve_key}
use sec_oc.Profile.{SecurityProfileEntry}
use sec_oc.Secoc.Objects.{Setup}
use sec_oc.Api.State.{AppState, or_provision, provision_each}
use sec_oc.Api.FirstKeys.{
  IsReadable, has_key, has_none, key_or, IsHeld, Kept, Provided, with_first_key, first_key_made,
  first_key-Provided,
}

Kept-refl : (a : AppState) → a.stack.csm.hsm.fail_mode ≡ false → Kept a a
Kept-refl a up = record {
  up = up;
  profiles = refl;
  stays = λ q found. found;
  others = λ j default ne. refl;
  held = λ j h. h;
  readable = λ q h. h;
}

Kept-trans : {a b c : AppState} → Kept a b → Kept b c → Kept a c
Kept-trans f g = record {
  up = g.up;
  profiles = g.profiles ∙ f.profiles;
  stays = λ q found. g.stays q (f.stays q found);
  others = λ j default ne. g.others j default ne ∙ f.others j default ne;
  held = λ j h. g.held j (f.held j h);
  readable = λ q h. g.readable q (f.readable q h);
}

module _ (env : Setup) (p : String) (profile : SecurityProfileEntry) (a : AppState)
    (up : a.stack.csm.hsm.fail_mode ≡ false) where
  kept_key-Provided :
      {k : String} → resolve_key p a.stack.nvm ≡ ok k → Provided p profile.key_id a a
  unfolding key_or
  kept_key-Provided {k} found = record {
    kept = Kept-refl a up;
    this = rw found refl;
    rest = λ q ne. refl;
    fresh = λ missing. absurd (cc);
  }

  -- One turn of the loop.
  or_provision-Provided :
      IsReadable p a.stack.nvm
      → (b : AppState) × (or_provision env p profile (resolve_key p a.stack.nvm) a ≡ (b, ok tt))
        × Provided p profile.key_id a b
  unfolding or_provision
  or_provision-Provided (has_key found) = (a, rw found refl, kept_key-Provided found)
  or_provision-Provided (has_none missing) = (
    with_first_key env p profile.key_id a,
    rw missing (rw (first_key_made env p profile.key_id a up) refl),
    first_key-Provided env p profile.key_id a up missing,
  )

-- What the loop leaves, for the profiles that it has gone through.
pub record AreProvided (profiles : Dict SecurityProfileEntry) (a b : AppState) : Type 0 where
  pub kept : Kept a b
  pub resolves :
      (p : String) (profile : SecurityProfileEntry)
      → lookup p profiles ≡ some profile
      → resolve_key p b.stack.nvm ≡ ok (key_or profile.key_id (resolve_key p a.stack.nvm))
  pub fresh :
      (p : String) (profile : SecurityProfileEntry)
      → lookup p profiles ≡ some profile
      → resolve_key p a.stack.nvm ≡ raised key_error
      → IsHeld profile.key_id b.stack.csm.hsm

lookup-cons :
    {V : Type 0} (k p : String) (v w : V) (d : Dict V)
    → lookup p ((k, v) ∷ d) ≡ some w
    → ((k ≡ p) × (v ≡ w)) ⊎ ((k ≢ p) × (lookup p d ≡ some w))
unfolding lookup
lookup-cons k p v w d found = elim (Bool-cases (str_eq k p)) [
  | inl same ↦ inl ((eq_iff k p).0 same, ground arith)
  | inr other ↦ inr (λ e. absurd (ground (arith, eq_iff k p)), ground arith)
]

module _ (p0 : String) (profile0 : SecurityProfileEntry) (profiles : Dict SecurityProfileEntry)
    {a b c : AppState} (turn : Provided p0 profile0.key_id a b)
    (others : AreProvided profiles b c) where
  cons_resolves :
      (p : String) (profile : SecurityProfileEntry)
      → lookup p ((p0, profile0) ∷ profiles) ≡ some profile
      → resolve_key p c.stack.nvm ≡ ok (key_or profile.key_id (resolve_key p a.stack.nvm))
  cons_resolves p profile found = elim (lookup-cons p0 p profile0 profile profiles found) [
    | inl (name, entry) ↦
        subst
          (λ q. resolve_key q c.stack.nvm ≡ ok (key_or profile.key_id (resolve_key q a.stack.nvm)))
          name
          (subst
            (λ e. resolve_key p0 c.stack.nvm ≡ ok (key_or e.key_id (resolve_key p0 a.stack.nvm)))
            entry (others.kept.stays p0 turn.this))
    | inr (other, later) ↦
        others.resolves p profile later ∙ ap (λ o. ok (key_or profile.key_id o)) (turn.rest p other)
  ]

  cons_fresh :
      (p : String) (profile : SecurityProfileEntry)
      → lookup p ((p0, profile0) ∷ profiles) ≡ some profile
      → resolve_key p a.stack.nvm ≡ raised key_error
      → IsHeld profile.key_id c.stack.csm.hsm
  cons_fresh p profile found missing = elim (lookup-cons p0 p profile0 profile profiles found) [
    | inl (name, entry) ↦
        subst (λ e. IsHeld e.key_id c.stack.csm.hsm) entry
          (others.kept.held profile0.key_id
            (turn.fresh (ap (λ q. resolve_key q a.stack.nvm) name ∙ missing)))
    | inr (other, later) ↦ others.fresh p profile later (turn.rest p other ∙ missing)
  ]

  AreProvided-cons : AreProvided ((p0, profile0) ∷ profiles) a c
  AreProvided-cons = record {
    kept = Kept-trans turn.kept others.kept;
    resolves = cons_resolves;
    fresh = cons_fresh;
  }

pub provision_each-AreProvided :
    (env : Setup) (profiles : Dict SecurityProfileEntry) (a : AppState)
    → a.stack.csm.hsm.fail_mode ≡ false
    → ((q : String) → IsReadable q a.stack.nvm)
    → (b : AppState) × (provision_each env profiles a ≡ (b, ok tt)) × AreProvided profiles a b
unfolding provision_each lookup
provision_each-AreProvided env [] a up readable = (
  a,
  refl,
  record {
    kept = Kept-refl a up;
    resolves = λ p profile found. absurd (cc);
    fresh = λ p profile found missing. absurd (cc);
  },
)
provision_each-AreProvided env ((p, profile) ∷ profiles) a up readable =
    let (b, made, turn) = or_provision-Provided env p profile a up (readable p) in
    let (c, loop, others) =
      provision_each-AreProvided env profiles b turn.kept.up
        (λ q. turn.kept.readable q (readable q)) in
    (c, rw made loop, AreProvided-cons p profile profiles turn others)
