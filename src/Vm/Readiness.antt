-- ===== src/Vm/Readiness.antt =====
-- The readiness loop, and what the runtime's endpoints leave alone.
use vmdockerv.Base.{
  ==_iff, Bool-cases, Done, Error, List, Op, Result, Result-cases, Text, [], ap, arith, codes, err,
  false, inl, inr, ok, refl, subst, sym, true, ◌==◌, ◌↔◌, ◌∙◌, ◌∷◌, ◌≡◌, ◌≢◌,
}
use vmdockerv.Manager.{RuntimeManager}
use vmdockerv.Shell.{negative, positive, ℤ}
use vmdockerv.Vm.{
  VmDocker, Wake, Wire, call_runtime_endpoint, close_signal, health_status_code, is_status_ok, tick,
  wait_loop,
}

module _ {World : Type 0} (wire : Wire World) (goos : Text)
    (docker sandbox : Result (RuntimeManager World)) (pid : Text) where
  abbrev health : Op (VmDocker World) (ℤ × Text)
  health = call_runtime_endpoint wire goos docker sandbox pid (codes "/vmm/health") []

  -- A call of /vmm/health that fails, or that has another status than 200.
  abbrev IsUnready : Result (ℤ × Text) → Type 0
  IsUnready r = (status : ℤ) (body : Text) → r ≡ ok (status, body) → status ≢ positive 200

  -- The runtime is ready at a tick before the machine is closed and before the deadline.
  pub data BecomesReady : List Wake → VmDocker World → VmDocker World → Type 0 where
    answers :
        {events : List Wake} {v : VmDocker World} (body : Text)
        → (health v).0 ≡ ok (positive 200, body)
        → BecomesReady (tick ∷ events) v (health v).1
    waits :
        {events : List Wake} {v v' : VmDocker World}
        → IsUnready (health v).0
        → BecomesReady events (health v).1 v'
        → BecomesReady (tick ∷ events) v v'

  abbrev wait : List Wake → Op (VmDocker World) Done
  wait = wait_loop wire goos docker sandbox pid

  wait_answers :
      (events : List Wake) (v : VmDocker World) (body : Text)
      → (health v).0 ≡ ok (positive 200, body)
      → wait (tick ∷ events) v ≡ (ok tt, (health v).1)
  unfolding wait_loop health_status_code
  wait_answers events v body a = ground (arith, a)

  unready_status : (status : ℤ) → status ≢ positive 200 → is_status_ok status ≡ false
  unready_status (positive n) h = elim (Bool-cases (n == 200)) [
    | inl e ↦ absurd (h (ap positive ((==_iff n 200).0 e)))
    | inr e ↦ e
  ]
  unready_status (negative n) h = refl

  ready_status : (status : ℤ) → is_status_ok status ≡ true → status ≡ positive 200
  ready_status (positive n) h = ap positive ((==_iff n 200).0 h)
  ready_status (negative n) h = cc

  unready-ne : (status : ℤ) → is_status_ok status ≡ false → status ≢ positive 200
  unready-ne status h e = ground (arith, h, e)

  wait_waits :
      (events : List Wake) (v : VmDocker World)
      → IsUnready (health v).0
      → wait (tick ∷ events) v ≡ wait events (health v).1
  unfolding wait_loop health_status_code
  wait_waits events v a = elim (Result-cases (health v).0) [
    | inl ((status, body), e) ↦ ground (arith, e, unready_status status (a status body e))
    | inr (f, e) ↦ ground (arith, e)
  ]

  IsUnready-err : {r : Result (ℤ × Text)} {e : Error} → r ≡ err e → IsUnready r
  IsUnready-err p status body q = absurd (ground (arith, p, q))

  IsUnready-ok :
      {r : Result (ℤ × Text)} {status : ℤ} {body : Text}
      → r ≡ ok (status, body)
      → is_status_ok status ≡ false
      → IsUnready r
  IsUnready-ok {status} p a status' body' q = unready-ne status' (ground (arith, p, q, a))

  at_200 :
      {r : Result (ℤ × Text)} {status : ℤ} {body : Text}
      → r ≡ ok (status, body)
      → is_status_ok status ≡ true
      → r ≡ ok (positive 200, body)
  at_200 {status} {body} p t = p ∙ ap (λ n. ok (n, body)) (ready_status status t)

  wait_sound :
      (events : List Wake) (v v' : VmDocker World)
      → wait events v ≡ (ok tt, v')
      → BecomesReady events v v'
  unfolding wait_loop
  wait_sound [] v v' h = ground arith
  wait_sound (close_signal ∷ events) v v' h = ground arith
  wait_sound (tick ∷ events) v v' h = elim (Result-cases (health v).0) [
    | inl ((status, body), e) ↦ elim (Bool-cases (is_status_ok status)) [
      | inl t ↦
          subst (λ u. BecomesReady (tick ∷ events) v u)
            (ap (λ r. r.1) (sym (wait_answers events v body (at_200 e t)) ∙ h))
            (answers body (at_200 e t))
      | inr f ↦
          waits (IsUnready-ok e f)
            (wait_sound events (health v).1 v' (sym (wait_waits events v (IsUnready-ok e f)) ∙ h))
    ]
    | inr (f, e) ↦
        waits (IsUnready-err e)
          (wait_sound events (health v).1 v' (sym (wait_waits events v (IsUnready-err e)) ∙ h))
  ]

  wait_complete :
      {events : List Wake} {v v' : VmDocker World}
      → BecomesReady events v v'
      → wait events v ≡ (ok tt, v')
  wait_complete (answers {events} {v} body a) = wait_answers events v body a
  wait_complete (waits {events} {v} a later) = wait_waits events v a ∙ wait_complete later

  -- The readiness loop ends well, in a given state, exactly when a call of /vmm/health at a tick answers
  -- with the status 200 there, before a signal to close and before the deadline, and every earlier call
  -- failed or had another status.
  pub wait_loop-BecomesReady :
      (events : List Wake) (v v' : VmDocker World)
      → (wait_loop wire goos docker sandbox pid events v ≡ (ok tt, v')) ↔ BecomesReady events v v'
  wait_loop-BecomesReady events v v' = (wait_sound events v v', wait_complete)
