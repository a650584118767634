-- ===== src/Proxy/Session/Pump/Stuck.antt =====
-- A message whose length field is -1 and which needs no answer, in the loop of `pump`.
use mtdd.Prelude.{ℕ, zero, suc, ◌≡◌, ◌≢◌, refl, ◌∷◌, arith}
use mtdd.Prelude.Int.{◌+ℤ◌}
use mtdd.Js.Buffer.{Bytes, read_i32_be, subarray_from}
use mtdd.Js.Effect.{ok, ◌>>=◌}
use mtdd.Proxy.Session.{Session, Env, Phase, auth, ready}
use mtdd.Proxy.Session.Pump.{pump, pump_step, again, out_of_fuel}

-- The messages that are read and not answered: before the password all but the password, and after
-- it Describe, Flush and Close.
pub data IsSilent : Phase → ℕ → Type 0 where
  unauthenticated : {phase : Phase} {type : ℕ} → phase ≡ auth → type ≢ b'p' → IsSilent phase type
  describe : {phase : Phase} {type : ℕ} → phase ≡ ready → type ≡ b'D' → IsSilent phase type
  flush : {phase : Phase} {type : ℕ} → phase ≡ ready → type ≡ b'H' → IsSilent phase type
  close : {phase : Phase} {type : ℕ} → phase ≡ ready → type ≡ b'C' → IsSilent phase type

-- A session whose buffer begins with a message of this type and that length.
abbrev pub with_message : Phase → ℕ → Bytes → Session → Session
with_message phase type rest s = record s {
  phase = phase;
  buf = type ∷ 255 ∷ 255 ∷ 255 ∷ 255 ∷ rest;
}

step_again :
    (phase : Phase) (type : ℕ) (rest : Bytes) (env : Env) (s : Session)
    → IsSilent phase type
    → pump_step env (with_message phase type rest s) ≡ (ok again, with_message phase type rest s)
unfolding pump_step ◌>>=◌ ◌+ℤ◌ read_i32_be subarray_from
step_again phase type rest env s (unauthenticated e ne) = rw e (ground arith)
step_again phase type rest env s (describe e t) = rw (e, t) (ground arith)
step_again phase type rest env s (flush e t) = rw (e, t) (ground arith)
step_again phase type rest env s (close e t) = rw (e, t) (ground arith)

-- Where the buffer begins with a message whose length field is -1, which is any but a password before
-- the password, or Describe, Flush or Close after it, the loop never ends: whatever its fuel is, it
-- runs out, and the session is as before, with the message still in the buffer and nothing written.
pub pump-out_of_fuel :
    (phase : Phase) (type : ℕ) (rest : Bytes) (fuel : ℕ) (env : Env) (s : Session)
    → IsSilent phase type
    → pump fuel env (with_message phase type rest s)
      ≡ (ok out_of_fuel, with_message phase type rest s)
unfolding pump
pump-out_of_fuel phase type rest zero env s h = refl
pump-out_of_fuel phase type rest (suc fuel) env s h =
    rw (step_again phase type rest env s h, pump-out_of_fuel phase type rest fuel env s h)
