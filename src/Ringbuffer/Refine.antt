-- ===== src/Ringbuffer/Refine.antt =====
-- The contract of Ringbuffer.hpp: a client cannot tell a ring buffer from a bounded queue.
use ni_traktor_kontrol_f.Base.{
  ℕ, if◌then◌else◌, leb, ◌≡◌, refl, ap, ap₂, Bool, Bool-cases, inl, inr, List, [], ◌∷◌, ◌++◌,
  length, Result, ok, err, Error, out_of_range, leb→le, leb_false→lt,
}
use ni_traktor_kontrol_f.Jack.{JackRing, Layout}
use ni_traktor_kontrol_f.Ringbuffer.{Ringbuffer, empty, full, size, push, pop}
use ni_traktor_kontrol_f.Ringbuffer.Holds.{is_nil, Holds, empty-Holds, full-Holds, size-Holds}
use ni_traktor_kontrol_f.Ringbuffer.Steps.{push-Holds, push-full, pop-Holds, pop-empty}

-- A client's call, and what comes of it.
pub data Call (T : Type 0) : Type 0 where
  push_call : T → Call T
  pop_call empty_call full_call size_call : Call T

pub data Reply (T : Type 0) : Type 0 where
  done : Reply T
  item : T → Reply T
  flag : Bool → Reply T
  count : ℕ → Reply T
  thrown : Error → Reply T

module _ {T : Type 0} where
  -- The abstract queue of at most `places` items.
  unfoldable pub queue_call : (places : ℕ) → Call T → List T → Reply T × List T
  queue_call places (push_call v) q =
      if leb places (length q) then (thrown out_of_range, q) else (done, q ++ (v ∷ []))
  queue_call places pop_call [] = (thrown out_of_range, [])
  queue_call places pop_call (t ∷ q) = (item t, q)
  queue_call places empty_call q = (flag (is_nil q), q)
  queue_call places full_call q = (flag (leb places (length q)), q)
  queue_call places size_call q = (count (length q), q)

  unfoldable pub queue_run : (places : ℕ) → List (Call T) → List T → List (Reply T) × List T
  queue_run places [] q = ([], q)
  queue_run places (c ∷ cs) q =
      let (r, q) = queue_call places c q in let (rs, q) = queue_run places cs q in (r ∷ rs, q)

  -- A call that throws leaves the object as it was.
  unfoldable pub answer : {S A : Type 0} → (A → Reply T × S) → S → Result A → Reply T × S
  answer found s (ok a) = found a
  answer found s (err e) = (thrown e, s)

module _ (j : JackRing) {T : Type 0} (l : Layout T) where
  unfoldable pub ring_call : Call T → Ringbuffer j → Reply T × Ringbuffer j
  ring_call (push_call v) b = answer (λ c. (done, c)) b (push j l b v)
  ring_call pop_call b = answer (λ r. (item r.0, r.1)) b (pop j l b)
  ring_call empty_call b = answer (λ r. (flag r, b)) b (empty j l b)
  ring_call full_call b = answer (λ r. (flag r, b)) b (full j l b)
  ring_call size_call b = answer (λ r. (count r, b)) b (size j l b)

  unfoldable pub ring_run : List (Call T) → Ringbuffer j → List (Reply T) × Ringbuffer j
  ring_run [] b = ([], b)
  ring_run (c ∷ cs) b = let (r, b) = ring_call c b in let (rs, b) = ring_run cs b in (r ∷ rs, b)

  module _ {places : ℕ} where
    ring_call-Holds :
        (c : Call T) {b : Ringbuffer j} {q : List T}
        → Holds j l places b q
        → ((ring_call c b).0 ≡ (queue_call places c q).0)
          × Holds j l places (ring_call c b).1 (queue_call places c q).1
    unfolding ring_call queue_call answer
    ring_call-Holds (push_call v) {b} {q} h = elim (Bool-cases (leb places (length q))) [
      | inl is_full ↦ rw (is_full, push-full j l h v (leb→le _ _ is_full)) (refl, h)
      | inr room ↦
          let (c, e, after) = push-Holds j l h v (leb_false→lt _ _ room) in
          rw (room, e) (refl, after)
    ]
    ring_call-Holds pop_call {q = []} h = rw (pop-empty j l h) (refl, h)
    ring_call-Holds pop_call {q = t ∷ q} h =
        let (r, e, p) = pop-Holds j l h in rw e (ap item p.0, p.1)
    ring_call-Holds empty_call h = rw (empty-Holds j l h) (refl, h)
    ring_call-Holds full_call h = rw (full-Holds j l h) (refl, h)
    ring_call-Holds size_call h = rw (size-Holds j l h) (refl, h)

    -- A ring buffer that holds the items of a queue answers every sequence of calls as that queue
    -- does, errors included, and holds the queue's items after it.
    pub ring_run-Holds :
        (cs : List (Call T)) {b : Ringbuffer j} {q : List T}
        → Holds j l places b q
        → ((ring_run cs b).0 ≡ (queue_run places cs q).0)
          × Holds j l places (ring_run cs b).1 (queue_run places cs q).1
    unfolding ring_run queue_run
    ring_run-Holds [] h = (refl, h)
    ring_run-Holds (c ∷ cs) h =
        let (e, after) = ring_call-Holds c h in
        let (es, last) = ring_run-Holds cs after in (ap₂ (λ r rs. r ∷ rs) e es, last)
