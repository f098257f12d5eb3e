-- ===== src/Secoc/Replay.antt =====
-- What `receive_secured` of sim/secoc.py does with a frame that it has accepted before.
use sec_oc.Base.{
  ℕ, ◌+◌, ◌≤◌, ◌<◌, ◌≡◌, refl, sym, ap, ◌∙◌, String, Option, none, some, arith, Outcome, ok,
  ok-injective,
}
use sec_oc.Base.Bytes.{Bytes, modulus, modulus_pos}
use sec_oc.Freshness.{commit_freshness, load_last_valid_freshness}
use sec_oc.Freshness.Residue.{reconstruct_again}
use sec_oc.Freshness.Window.{LastValid, LastValid-commit_freshness}
use sec_oc.Nvm.Values.{as_int}
use sec_oc.Pdu.{Parts}
use sec_oc.Profile.{SecurityProfileEntry, Transport, get_profile}
use sec_oc.Secoc.Objects.{Setup, Stack}
use sec_oc.Secoc.Reception.{Splits, IsFresh, Reception}
use sec_oc.Secoc.Receive.{receive_secured-Reception}
use sec_oc.Secoc.Delivery.{receive_secured-stale}
use sec_oc.Secoc.{receive_secured, reject}

module _ (env : Setup) (p : String) (frame : Bytes) (t : Transport) (s : Stack) where
  -- What an acceptance leaves to compare a later copy with.
  record Before (s' : Stack) : Type 0 where
    profile : SecurityProfileEntry
    n : ℕ
    m : ℕ
    parts : Parts
    last : ℕ
    value : ℕ
    split : Splits env p frame t s profile n m parts
    fresh : IsFresh env p frame t s parts last value
    memory : s'.nvm ≡ commit_freshness p value s.nvm

  accepted :
      {s' : Stack} {r : Outcome (Option Bytes)} {a : Bytes}
      → Reception env p frame t s s' r
      → r ≡ ok (some a)
      → Before s'
  accepted (Reception.failed cause) e = cc
  accepted (Reception.rejected why) e = cc
  accepted
        (Reception.accepted {profile = profile} {n} {m} {parts} {last} {v} split fresh found job
          matches)
        e =
      record {
        profile = profile;
        n = n;
        m = m;
        parts = parts;
        last = last;
        value = v;
        split = split;
        fresh = fresh;
        memory = refl;
      }

  -- A frame that `receive_secured` accepted at the counter value `v` answers None when it comes
  -- again, on any later state `r` with the same profile for the PDU whose last accepted value has
  -- not fallen below `v` and is more than a window short of `v` plus the period of the counter.
  pub replay_rejected :
      (a : Bytes) (v : ℕ) (r : Stack) (last : ℕ)
      → (receive_secured env p frame t s).1 ≡ ok (some a)
      → LastValid p (receive_secured env p frame t s).0.nvm v
      → get_profile p r.profiles ≡ get_profile p s.profiles
      → LastValid p r.nvm last
      → v ≤ last
      → last + env.fm.window_size < v + modulus env.fm.freshness_length
      → (receive_secured env p frame t r).1 ≡ ok none
  unfolding reject
  replay_rejected a v r last e committed same before above short =
      let b = accepted (receive_secured-Reception env p frame t s) e in
      let value : v ≡ b.value = ok-injective (
        sym committed
        ∙ ap (λ x. as_int (load_last_valid_freshness p x)) b.memory
        ∙ LastValid-commit_freshness p b.value s.nvm) in
      let split : Splits env p frame t r b.profile b.n b.m b.parts = record {
        configured = record {
          found = same ∙ b.split.configured.found;
          lengths = b.split.configured.lengths;
        };
        parsed = b.split.parsed;
      } in
      let rebuilt = b.fresh.rebuilt in
      let again =
        reconstruct_again (modulus env.fm.freshness_length) b.last last b.parts.freshness_value
          (modulus_pos env.fm.freshness_length) (omega arith) in
      ap (λ x. x.1)
        (receive_secured-stale env p frame t r b.profile b.n b.m b.parts last split before
          (omega arith))
