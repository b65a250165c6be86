-- ===== src/Vhsm/Tasks/Invariant.antt =====
-- What holds of the vHSM's state whatever requests arrive and however their tasks interleave.
use kms_platform.Common.{
  ◌≡◌, refl, Bool, true, false, none, some, List, [], ◌∷◌, All, arith, if◌then◌else◌, Option-cases,
  inl, inr,
}
use kms_platform.Host.{Host}
use kms_platform.Common.Picks.{All-Removes}
use kms_platform.Vhsm.Protocol.{HsmRequest, generate_ceremony}
use kms_platform.Vhsm.State.{VhsmState}
use kms_platform.Vhsm.Handler.{
  Env, Pending, ceremony, unseal, root_ca, ca_key, Started, reply, hold, Outcome, answered,
  panicked, start, resume,
}
use kms_platform.Vhsm.Tasks.{World, boot, arrive, proceed, Step, begin, continue, Reach, here, next}

abbrev pub is_unlocked : VhsmState → Bool
is_unlocked s = elim s.master_key [ none ↦ false | some key ↦ true ]

-- `initialized` and the version go with the master key, and a locked vHSM holds no CA key.
pub record IsConsistent (s : VhsmState) : Type 0 where
  pub flag : s.initialized ≡ is_unlocked s
  pub version : s.active_key_version ≡ (if is_unlocked s then 1 else 0)
  pub sealed : is_unlocked s ≡ false → s.active_ca_keys ≡ []

-- Whether a waiting task relies on the master key that it found before.
abbrev pub needs_key : Pending → Bool
needs_key (root_ca _ _ _ _ _ _) = true
needs_key (ca_key _ _) = true
needs_key _ = false

abbrev pub Fits : VhsmState → Pending → Type 0
Fits s p = needs_key p ≡ true → is_unlocked s ≡ true

abbrev pub HasNoPanic : Outcome → Type 0
HasNoPanic (answered r) = Unit
HasNoPanic panicked = ⊥

pub record IsSound (w : World) : Type 0 where
  pub consistent : IsConsistent w.state
  pub fitting : All (Fits w.state) w.waiting
  pub calm : All HasNoPanic w.answers

IsSound-boot : IsSound boot
IsSound-boot = record {
  consistent = record { flag = refl; version = refl; sealed = λ _. refl };
  fitting = tt;
  calm = tt;
}

module _ (h : Host) where
  Fits-start :
      (e : Env) (r : HsmRequest) (s : VhsmState) (p : Pending) → start h e r s ≡ hold p → Fits s p
  unfolding start
  Fits-start e (generate_ceremony t total) s p q n = ground arith
  Fits-start e r s p q n = ground arith

  resume-IsConsistent :
      (p : Pending) (s : VhsmState) → Fits s p → IsConsistent s → IsConsistent (resume h p s).1
  unfolding resume
  resume-IsConsistent (ceremony key shares) s f c = ground arith
  resume-IsConsistent _ s f c = ground arith

  HasNoPanic-resume : (p : Pending) (s : VhsmState) → Fits s p → HasNoPanic (resume h p s).0
  unfolding resume
  HasNoPanic-resume (ceremony key shares) s f = tt
  HasNoPanic-resume (unseal key) s f = tt
  HasNoPanic-resume (root_ca d k c p m a) s f = elim (Option-cases s.master_key) [
    | inl sealed ↦ absurd (ground arith)
    | inr (key, found) ↦ rw found tt
  ]
  HasNoPanic-resume (ca_key t k) s f = tt

  -- The master key is never taken away, so what fitted still fits.
  Fits-resume : (p q : Pending) (s : VhsmState) → Fits s q → Fits (resume h p s).1 q
  unfolding resume
  Fits-resume (ceremony key shares) q s f = ground arith
  Fits-resume _ q s f = ground arith

  All-Fits-resume :
      (p : Pending) (s : VhsmState) (ps : List Pending)
      → All (Fits s) ps
      → All (Fits (resume h p s).1) ps
  All-Fits-resume p s [] f = tt
  All-Fits-resume p s (q ∷ qs) f = (Fits-resume p q s f.0, All-Fits-resume p s qs f.1)

  arrive-IsSound :
      (st : Started) (w : World)
      → ((p : Pending) → st ≡ hold p → Fits w.state p)
      → IsSound w
      → IsSound (arrive st w)
  unfolding arrive
  arrive-IsSound (reply r) w f sound = record {
    consistent = sound.consistent;
    fitting = sound.fitting;
    calm = (tt, sound.calm);
  }
  arrive-IsSound (hold p) w f sound = record {
    consistent = sound.consistent;
    fitting = (f p refl, sound.fitting);
    calm = sound.calm;
  }

  Step-IsSound : {w v : World} → Step h w v → IsSound w → IsSound v
  unfolding proceed
  Step-IsSound (begin w e r) sound =
      arrive-IsSound (start h e r w.state) w (Fits-start e r w.state) sound
  Step-IsSound (continue w p rest gone) sound =
      let (fits, others) = All-Removes (Fits w.state) gone sound.fitting in
      record {
        consistent = resume-IsConsistent p w.state fits sound.consistent;
        fitting = All-Fits-resume p w.state rest others;
        calm = (HasNoPanic-resume p w.state fits, sound.calm);
      }

  Reach-IsSound_from : {w v : World} → IsSound w → Reach h w v → IsSound v
  Reach-IsSound_from sound here = sound
  Reach-IsSound_from sound (next r step) = Step-IsSound step (Reach-IsSound_from sound r)

-- Whatever requests arrive at a vHSM that has just started, and however their tasks interleave:
-- `initialized` is true exactly when there is a master key, the active version is 1 then and 0
-- otherwise, no CA key is loaded before there is a master key, every waiting task that found the
-- master key will find it again, and no task has panicked on an `unwrap`.
pub Reach-IsSound : (h : Host) {w : World} → Reach h boot w → IsSound w
Reach-IsSound h r = Reach-IsSound_from h IsSound-boot r
