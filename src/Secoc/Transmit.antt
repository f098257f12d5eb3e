-- ===== src/Secoc/Transmit.antt =====
-- What `transmit_secured` of sim/secoc.py makes, and what it leaves alone.
use sec_oc.Base.{
  ℕ, ◌+◌, ◌-◌, ◌%◌, ◌≡◌, refl, ap, String, Bool, true, false, ◌&&◌, arith, ◌++◌, length,
  length-append, length-replicate, replicate, ok, if◌then◌else◌, ltb,
}
use sec_oc.Base.Bytes.{Bytes, big_endian, modulus}
use sec_oc.Crypto.Macs.{HoldsKey}
use sec_oc.Crypto.Csm.{finished}
use sec_oc.Freshness.Window.{LastValid}
use sec_oc.Monitor.{log_event}
use sec_oc.Monitor.Events.{warning}
use sec_oc.Pdu.{build_secured_pdu}
use sec_oc.Pdu.RoundTrip.{PayloadFits, build_secured_pdu_lem}
use sec_oc.Profile.{SecurityProfileEntry, Transport, classic_can, can_fd}
use sec_oc.Secoc.Objects.{Setup, Stack}
use sec_oc.Secoc.Authenticator.{resolve_key_id, check_budget}
use sec_oc.Secoc.Macs.{HasProfile, truncated_mac, generate_mac_held}
use sec_oc.Secoc.{transmit_secured, fit_payload}

pub fit_payload-PayloadFits :
    (t : Transport) (a payload : Bytes) → fit_payload t a ≡ ok payload → PayloadFits t payload
unfolding fit_payload
fit_payload-PayloadFits can_fd a payload e = tt
fit_payload-PayloadFits classic_can a payload e =
    ground (
      arith,
      length-append a (replicate (4 - length a) 0),
      length-replicate {A = ℕ} (4 - length a) 0,
    )

-- A node that can protect the PDU: it has a profile and a key for it, and a counter value.
pub record IsReady (env : Setup) (p : String) (t : Transport) (profile : SecurityProfileEntry)
    (n m : ℕ) (key : Bytes) (last : ℕ) (s : Stack) : Type 0 where
  pub configured : HasProfile p t s profile n m
  pub key_id : String
  pub resolved : resolve_key_id env p profile s ≡ ok key_id
  pub held : HoldsKey s.csm key_id key
  pub before : LastValid p s.nvm last

module _ (env : Setup) (p : String) (t : Transport) (profile : SecurityProfileEntry) (n m : ℕ)
    (key : Bytes) where
  -- A node as `transmit_secured` leaves it.
  pub record IsTransmitted (s s' : Stack) : Type 0 where
    pub memory : s'.nvm ≡ s.nvm
    pub bus : s'.bus ≡ s.bus
    pub op_seq : s'.op_seq ≡ s.op_seq + 1
    pub monitor : s'.monitor ≡ (
        if ltb 5000 (env.elapsed_us s.op_seq) && env.has_event_logger
        then log_event warning "WCET_EXCEEDED" "SW-SecOC-08" s.monitor
        else s.monitor)

  picks :
      (s : Stack) (warns : Bool) (s' : Stack)
      → ltb 5000 (env.elapsed_us s.op_seq) && env.has_event_logger ≡ warns
      → s' ≡ record s { op_seq = s.op_seq + 1; csm = record s.csm { state = finished } }
      → IsTransmitted s (
          if warns
          then record s' { monitor = log_event warning "WCET_EXCEEDED" "SW-SecOC-08" s'.monitor }
          else s')
  picks s true s' w e = record {
    memory = ap (λ x. x.nvm) e;
    bus = ap (λ x. x.bus) e;
    op_seq = ap (λ x. x.op_seq) e;
    monitor = rw (w, e);
  }
  picks s false s' w e = record {
    memory = ap (λ x. x.nvm) e;
    bus = ap (λ x. x.bus) e;
    op_seq = ap (λ x. x.op_seq) e;
    monitor = rw (w, e);
  }

  check_budget-IsTransmitted :
      (s : Stack)
      → IsTransmitted s (
          check_budget env s.op_seq
            (record s { op_seq = s.op_seq + 1; csm = record s.csm { state = finished } }))
  unfolding check_budget
  check_budget-IsTransmitted s =
      picks s (ltb 5000 (env.elapsed_us s.op_seq) && env.has_event_logger) _ refl refl

  module _ (a payload : Bytes) (fits : fit_payload t a ≡ ok payload) where
    pub transmit_secured-build :
        (s : Stack) (last : ℕ)
        → IsReady env p t profile n m key last s
        → transmit_secured env p a t s ≡ (
          check_budget env s.op_seq
              (record s { op_seq = s.op_seq + 1; csm = record s.csm { state = finished } }),
          build_secured_pdu payload
              (last + 1)
              (truncated_mac env key payload (last + 1) n m)
              profile
              t,
        )
    unfolding transmit_secured
    transmit_secured-build s last ready =
        rw (ready.configured.found, fits, ready.before)
          (rw (
            generate_mac_held env p t profile n m s ready.key_id key payload (last + 1)
              ready.configured ready.resolved ready.held))

    -- `transmit_secured` of a node that is ready and whose payload fits the transport returns the
    -- padded payload, the low bytes of the last accepted value plus one, and the truncated MAC of
    -- both; it leaves the memory and the bus alone, and logs no more than a warning, if there is a
    -- logger and the MAC took over 5 ms.
    pub transmit_secured-IsTransmitted :
        (s : Stack) (last : ℕ)
        → IsReady env p t profile n m key last s
        → let (s', sent) = transmit_secured env p a t s in
          (sent
            ≡ ok (
                payload
                ++ (big_endian n ((last + 1) % modulus n)
                    ++ truncated_mac env key payload (last + 1) n m)))
          × IsTransmitted s s'
    transmit_secured-IsTransmitted s last ready = rw (transmit_secured-build s last ready) (
      build_secured_pdu_lem payload (truncated_mac env key payload (last + 1) n m) (last + 1)
          profile t n m ready.configured.lengths,
      check_budget-IsTransmitted s,
    )
