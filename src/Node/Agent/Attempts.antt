-- ===== src/Node/Agent/Attempts.antt =====
-- airstore/node/registration.py: the attempts of a registration.
use air_store.Prelude.{
  ℕ, zero, suc, ◌+◌, ◌≤◌, ◌<◌, ◌≡◌, refl, ◌⊎◌, inl, inr, Bool, false, Option, none, some,
  Option-cases, arith,
}
use air_store.Node.Handlers.{Reply}
use air_store.Node.Agent.{Registration, accepted, register_from, register}

-- The attempts before `stop`, from `start` on, were not accepted.
abbrev pub AreRefused : (ℕ → Reply (Option Bool)) → ℕ → ℕ → Type 0
AreRefused reply start stop = (i : ℕ) → start ≤ i → i < stop → accepted (reply i) ≡ none

-- The first accepted attempt of `rounds` from `start` on decides; no later one is made.
abbrev pub IsDecided : (ℕ → Reply (Option Bool)) → ℕ → ℕ → Registration → Type 0
IsDecided reply start rounds r =
    ((k : ℕ) × (k < rounds)
      × AreRefused reply start (start + k)
      × (accepted (reply (start + k)) ≡ some r.success)
      × (r.requests ≡ k + 1))
    ⊎ (AreRefused reply start (start + rounds) × (r.success ≡ false) × (r.requests ≡ rounds))

AreRefused-step :
    (reply : ℕ → Reply (Option Bool)) (start stop : ℕ)
    → accepted (reply start) ≡ none
    → AreRefused reply (start + 1) stop
    → AreRefused reply start stop
AreRefused-step reply start stop h rest i lo hi = ground (arith, h, rest i)

register_from-IsDecided :
    (rounds start : ℕ) (reply : ℕ → Reply (Option Bool))
    → IsDecided reply start rounds (register_from rounds start reply)
unfolding register_from
register_from-IsDecided zero start reply = inr ((λ i lo hi. absurd (omega arith)), refl, refl)
register_from-IsDecided (suc rounds) start reply = elim (Option-cases (accepted (reply start))) [
  | inr (success, e) ↦
      rw (e, register_from)
        (inl (0, omega arith, (λ i lo hi. absurd (omega arith)), ground (arith, e), refl))
  | inl e ↦
      rw (e, register_from)
        (elim (register_from-IsDecided rounds (start + 1) reply) [
          | inl (k, bound, refused, got, count) ↦ inl (
            suc k,
            omega arith,
            AreRefused-step reply start (start + suc k) e (λ i lo hi. refused i lo (omega arith)),
            ground (arith, got),
            omega (arith, count),
          )
          | inr (refused, bad, count) ↦ inr (
            AreRefused-step reply start (start + suc rounds) e
                (λ i lo hi. refused i lo (omega arith)),
            bad,
            omega (arith, count),
          )
        ])
]

-- A registration is decided by the first of its `retries` attempts that gets a 2xx with a valid
-- body, and makes no attempt after it; where no attempt gets one, it fails after exactly `retries`
-- attempts.
pub register-IsDecided :
    (retries : ℕ) (reply : ℕ → Reply (Option Bool))
    → IsDecided reply 1 retries (register retries reply)
unfolding register
register-IsDecided retries reply = register_from-IsDecided retries 1 reply
