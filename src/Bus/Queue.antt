-- ===== src/Bus/Queue.antt =====
-- Frames leave the queue of sim/can_bus.py in the order in which they were published.
use sec_oc.Base.{
  str_eq, if◌then◌else◌, ℕ, zero, suc, ◌≡◌, refl, ap, ◌∙◌, String, Option, none, some, List, [],
  ◌∷◌, ◌++◌, append_assoc, append-nil, length, arith,
}
use sec_oc.Base.Bytes.{Bytes}
use sec_oc.Base.Dict.{lookup-insert}
use sec_oc.Bus.{get_last, CanBus, publish, consume, pop}

-- Publishing each frame in turn.
pub publish_all : List (String × Bytes) → CanBus → CanBus
publish_all [] bus = bus
publish_all ((pdu_id, frame) ∷ frames) bus = publish_all frames (publish pdu_id frame bus)

-- The frame of one `consume`, if there is one, in front of what later ones return.
found : Option (String × Bytes) → List (String × Bytes) → List (String × Bytes)
found none frames = frames
found (some frame) frames = frame ∷ frames

-- What `n` calls of `consume` return.
pub consume_all : ℕ → CanBus → List (String × Bytes)
consume_all zero bus = []
consume_all (suc n) bus = let (bus', frame) = consume bus in found frame (consume_all n bus')

queue-publish_all :
    (frames : List (String × Bytes)) (bus : CanBus)
    → (publish_all frames bus).queue ≡ bus.queue ++ frames
unfolding publish_all publish
queue-publish_all [] bus = rw append-nil
queue-publish_all ((p, f) ∷ frames) bus =
    queue-publish_all frames (publish p f bus) ∙ append_assoc bus.queue ((p, f) ∷ []) frames

consume_lem :
    (f : String × Bytes) (frames : List (String × Bytes)) (bus : CanBus)
    → bus.queue ≡ f ∷ frames
    → consume bus ≡ (record bus { queue = frames }, some f)
unfolding consume
consume_lem f frames bus e = ground arith

consume_all-queue :
    (frames : List (String × Bytes)) (bus : CanBus)
    → bus.queue ≡ frames
    → consume_all (length frames) bus ≡ frames
unfolding consume_all found
consume_all-queue [] bus e = refl
consume_all-queue (f ∷ frames) bus e =
    rw (consume_lem f frames bus e)
      (ap (λ xs. f ∷ xs) (consume_all-queue frames (record bus { queue = frames }) refl))

-- First in, first out: frames published on a bus whose queue is empty are consumed in the order of
-- their publication, none lost and none twice.
pub consume_all-publish_all :
    (frames : List (String × Bytes)) (bus : CanBus)
    → bus.queue ≡ []
    → consume_all (length frames) (publish_all frames bus) ≡ frames
consume_all-publish_all frames bus e =
    consume_all-queue frames (publish_all frames bus)
      (queue-publish_all frames bus ∙ ap (λ q. q ++ frames) e)

-- The last frame of a PDU is the one last published for it.
pub get_last-publish :
    (p q : String) (frame : Bytes) (bus : CanBus)
    → get_last q (publish p frame bus) ≡ (if str_eq p q then some frame else get_last q bus)
unfolding get_last publish
get_last-publish p q frame bus = lookup-insert p q frame bus.last_frames

-- A frame is published, and then the next one is taken.
pub consume-publish_empty :
    (p : String) (frame : Bytes) (bus : CanBus)
    → bus.queue ≡ []
    → consume (publish p frame bus) ≡ (record (publish p frame bus) { queue = [] }, some (p, frame))
unfolding consume publish pop
consume-publish_empty p frame bus e = rw e refl

pub consume-publish_behind :
    (p q : String) (frame head : Bytes) (rest : List (String × Bytes)) (bus : CanBus)
    → bus.queue ≡ (q, head) ∷ rest
    → consume (publish p frame bus)
      ≡ (record (publish p frame bus) { queue = rest ++ (p, frame) ∷ [] }, some (q, head))
unfolding consume publish pop
consume-publish_behind p q frame head rest bus e = rw e refl
