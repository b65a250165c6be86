-- ===== src/Vhsm/Tasks/Race.antt =====
-- Two ceremonies: one after the other, and with their tasks interleaved.
use kms_platform.Common.{◌≡◌, refl, ℕ, List, [], ◌∷◌, Bytes, ok, some, arith, subst}
use kms_platform.Common.Picks.{first, later}
use kms_platform.Host.{Host}
use kms_platform.Vhsm.Protocol.{HsmRequest, Share, generate_ceremony, ceremony_generated, error}
use kms_platform.Vhsm.State.{new}
use kms_platform.Vhsm.Crypto.{generate_and_split_master_key}
use kms_platform.Vhsm.Handler.{
  Env, Pending, ceremony, answered, hold, start, resume, handle_request,
}
use kms_platform.Vhsm.Tasks.{World, boot, arrive, proceed, begin, continue, Reach, here, next}

next_hold :
    (h : Host) (e : Env) (r : HsmRequest) {w v : World} {p : Pending}
    → Reach h w v
    → start h e r v.state ≡ hold p
    → Reach h w (record v { waiting = p ∷ v.waiting })
unfolding arrive
next_hold h e r {w} {v} reached held =
    subst (λ st. Reach h w (arrive st v)) held (next reached (begin v e r))

module _ (h : Host) (e e' : Env) (t n t' n' : ℕ) {key key' : Bytes} {shares shares' : List Share}
    (made : generate_and_split_master_key h e.draw n t ≡ ok (key, shares))
    (made' : generate_and_split_master_key h e'.draw n' t' ≡ ok (key', shares')) where
  first_start : start h e (generate_ceremony t n) new ≡ hold (ceremony key shares)
  unfolding start
  first_start = ground arith

  second_start : start h e' (generate_ceremony t' n') new ≡ hold (ceremony key' shares')
  unfolding start
  second_start = ground arith

  -- Both tasks have found the vHSM uninitialized.
  abbrev both_waiting : World
  both_waiting = record {
    state = new;
    waiting = ceremony key' shares' ∷ ceremony key shares ∷ [];
    answers = [];
  }

  Reach-both_waiting : Reach h boot both_waiting
  Reach-both_waiting =
      next_hold h e' (generate_ceremony t' n')
        (next_hold h e (generate_ceremony t n) here first_start) second_start

  abbrev first_done : World
  first_done =
      proceed (resume h (ceremony key shares) new) (ceremony key' shares' ∷ []) both_waiting

  abbrev both_done : World
  both_done = proceed (resume h (ceremony key' shares') first_done.state) [] first_done

  Reach-both_done : Reach h boot both_done
  unfolding proceed
  Reach-both_done =
      next
        (next Reach-both_waiting
          (continue both_waiting (ceremony key shares) (ceremony key' shares' ∷ []) (later first)))
        (continue first_done (ceremony key' shares') [] first)

-- Two ceremonies whose tasks interleave, on a vHSM that has just started: if both can make their
-- key and shares, a run is reachable in which both are answered with their shares, and the vHSM is
-- left with the second key. One after the other, the second is refused with code 400.
pub ceremonies_race :
    (h : Host) (e e' : Env) (t n t' n' : ℕ) (key key' : Bytes) (shares shares' : List Share)
    → generate_and_split_master_key h e.draw n t ≡ ok (key, shares)
    → generate_and_split_master_key h e'.draw n' t' ≡ ok (key', shares')
    → ((w : World) × Reach h boot w
        × (w.answers
            ≡ answered (ceremony_generated shares') ∷ answered (ceremony_generated shares) ∷ [])
        × (w.state.master_key ≡ some key'))
      × ((handle_request h e'
            (generate_ceremony t' n')
            (handle_request h e (generate_ceremony t n) new).1).0
          ≡ answered (error 400 "vHSM is already initialized. Reset required to re-run ceremony."))
unfolding handle_request proceed
ceremonies_race h e e' t n t' n' key key' shares shares' made made' = (
  (both_done h e e' t n t' n' made made', Reach-both_done h e e' t n t' n' made made', refl, refl),
  ground arith,
)
