-- ===== src/MyClient/Rate.antt =====
-- How many messages a client of the client application sends in a time.
use native.Mathlib.Nat.{mul-add, mul_comm}
use cpp_network_obj.Base.{
  ℕ, zero, suc, ◌+◌, ◌-◌, ◌*◌, ◌≤◌, ◌≡◌, refl, ap, ap₂, leb, leb→le, sym, subst, ◌∙◌, Bool, true,
  List, [], ◌∷◌, ℤ, pos, negsuc, ◌+ℤ◌, sub_ℕ, leb_ℤ, ltb, if◌then◌else◌, arith, Bool-cases, inl,
  inr,
}
use cpp_network_obj.Server.{is_error}
use cpp_network_obj.TcpClient.{TcpClient, send_header, is_positive}
use cpp_network_obj.MyClient.{MyClient, SendOptions, Login, login_bytes, send_test, check_send}

-- A call of SendTest, with the connection as it is then, or of checkSend after some milliseconds.
pub data Call : Type 0 where
  test : Login → TcpClient → Call
  check : ℕ → Call

module _ (o : SendOptions) where
  -- How many calls of SendTest have sent a message, as the thread counts them.
  unfoldable pub sent_by : List Call → MyClient → ℕ
  sent_by [] s = 0
  sent_by (test l t ∷ calls) s =
      let (ret, s', t') = send_test l s t in
      let rest = sent_by calls s' in if is_positive ret then rest + 1 else rest
  sent_by (check dt ∷ calls) s = sent_by calls (check_send o (pos dt) s).1

  unfoldable pub elapsed : List Call → ℕ
  elapsed [] = 0
  elapsed (test l t ∷ calls) = elapsed calls
  elapsed (check dt ∷ calls) = dt + elapsed calls

-- MyClient after SendData returned `ret`.
abbrev after_send : ℤ → MyClient → MyClient
after_send ret s =
    if is_error ret
    then s
    else record s { send_msg_id = s.send_msg_id + 1; send_count = s.send_count - 1 }

after_send-count :
    (ret : ℤ) (s : MyClient)
    → ltb 0 s.send_count ≡ true
    → (if is_positive ret then 1 else 0) + (after_send ret s).send_count ≤ s.send_count
after_send-count (pos zero) s h = ground arith
after_send-count (pos (suc n)) s h = ground arith
after_send-count (negsuc zero) s h = ground arith
after_send-count (negsuc (suc n)) s h = ground arith

after_send-rest_time : (ret : ℤ) (s : MyClient) → (after_send ret s).rest_time ≡ s.rest_time
after_send-rest_time ret s = elim (Bool-cases (is_error ret)) [
  | inl h ↦ rw h refl
  | inr h ↦ rw h refl
]

-- What a call of SendTest takes from the counter.
test_step :
    (l : Login) (s : MyClient) (t : TcpClient)
    → let (ret, s', t') = send_test l s t in
      ((if is_positive ret then 1 else 0) + s'.send_count ≤ s.send_count)
      × (s'.rest_time ≡ s.rest_time)
unfolding send_test
test_step l s t =
    let (ret, t') = send_header (login_bytes l s.send_msg_id) t in
    elim (Bool-cases (ltb 0 s.send_count)) [
      | inl h ↦ rw h (after_send-count ret s h, after_send-rest_time ret s)
      | inr h ↦ rw h (omega arith, refl)
    ]

minus_plus : (z n : ℕ) → z ≤ n → z + (n - z) ≡ n
minus_plus z n h = omega arith

send_cost : (z k a b d m : ℕ) → z * k ≤ z * a + m → d + a ≤ b → z * (d + k) ≤ z * b + m
send_cost z k a b d m h h' = omega (
  arith,
  mul-add z d k,
  mul-add z d a,
  mul-add z (d + a) (b - (d + a)),
  ap (◌*◌ z) (minus_plus (d + a) b h'),
)

plus_assoc : (a b c : ℕ) → a + b + c ≡ a + (b + c)
plus_assoc a b c = omega arith

check_cost :
    (z n k c c' rest rest' dt t : ℕ)
    → z * k ≤ z * c' + n * (rest' + t)
    → z * c' + n * rest' ≤ z * c + n * (rest + dt)
    → z * k ≤ z * c + n * (rest + (dt + t))
check_cost z n k c c' rest rest' dt t h h' =
    omega (arith, mul-add n rest' t, mul-add n (rest + dt) t, ap (◌*◌ n) (plus_assoc rest dt t))

plus_pos : (a b : ℕ) → pos a +ℤ pos b ≡ pos (a + b)
unfolding ◌+ℤ◌
plus_pos a b = ground arith

minus_pos : (n z : ℕ) → z ≤ n → pos n +ℤ sub_ℕ 0 z ≡ pos (n - z)
unfolding ◌+ℤ◌
minus_pos n z h = ground arith

one_more : (b : Bool) (k : ℕ) → (if b then 1 else 0) + k ≡ (if b then k + 1 else k)
one_more b k = ground arith

plus_zero : (n : ℕ) → n + 0 ≡ n
plus_zero n = omega arith

-- What a reset of the counter costs.
reset_cost : (z n count sum : ℕ) → z ≤ sum → z * n + n * (sum - z) ≤ z * count + n * sum
reset_cost z n count sum h =
    omega (arith, mul_comm z n, sym (mul-add n z (sum - z)), ap (◌*◌ n) (minus_plus z sum h))

test_of : (z n : ℕ) {b : Bool} → leb z n ≡ b → leb_ℤ (pos z) (pos n) ≡ b
test_of z n h = ap₂ leb (plus_zero z) (plus_zero n) ∙ h

-- What a call of checkSend adds to the counter, in a clock that does not go back.
module _ (o : SendOptions) where
  check_step :
      (dt rest : ℕ) (s : MyClient)
      → s.rest_time ≡ pos rest
      → let s' = (check_send o (pos dt) s).1 in
        (rest' : ℕ) × (s'.rest_time ≡ pos rest')
        × (o.send_sleep * s'.send_count + o.n_msg * rest'
            ≤ o.send_sleep * s.send_count + o.n_msg * (rest + dt))
  unfolding check_send
  check_step dt rest s e =
      let sum : s.rest_time +ℤ pos dt ≡ pos (rest + dt) =
        ap (λ x. x +ℤ pos dt) e ∙ plus_pos rest dt in
      elim (Bool-cases (leb o.send_sleep (rest + dt))) [
        | inl h ↦ (
          rest + dt - o.send_sleep,
          rw sum (
              rw (test_of o.send_sleep (rest + dt) h)
                (minus_pos (rest + dt) o.send_sleep (leb→le o.send_sleep (rest + dt) h))),
          rw sum (
              rw (test_of o.send_sleep (rest + dt) h) (
                reset_cost o.send_sleep o.n_msg s.send_count (rest + dt)
                  (leb→le o.send_sleep (rest + dt) h))),
        )
        | inr h ↦ (
          rest + dt,
          rw sum (rw (test_of o.send_sleep (rest + dt) h) refl),
          rw sum (rw (test_of o.send_sleep (rest + dt) h) (omega arith)),
        )
      ]

  -- However the calls of SendTest and checkSend come, and whatever becomes of the connection,
  -- if the clock does not go back: nSendSleep times the number of messages sent is at most
  -- nSendSleep times what the counter allows at the start, and nMsg times the milliseconds that
  -- have passed and those counted before.
  pub sent_by-bound :
      (calls : List Call) (s : MyClient) (rest : ℕ)
      → s.rest_time ≡ pos rest
      → o.send_sleep * sent_by o calls s
        ≤ o.send_sleep * s.send_count + o.n_msg * (rest + elapsed o calls)
  unfolding sent_by elapsed
  sent_by-bound [] s rest e = omega arith
  sent_by-bound (test l t ∷ calls) s rest e =
      let (ret, s', t') = send_test l s t in
      let (count, same) = test_step l s t in
      subst
        (λ k. o.send_sleep * k ≤ o.send_sleep * s.send_count + o.n_msg * (rest + elapsed o calls))
        (one_more (is_positive ret) (sent_by o calls s'))
        (send_cost o.send_sleep (sent_by o calls s') s'.send_count s.send_count
          (if is_positive ret then 1 else 0) (o.n_msg * (rest + elapsed o calls))
          (sent_by-bound calls s' rest (same ∙ e)) count)
  sent_by-bound (check dt ∷ calls) s rest e =
      let (rest', e', cost) = check_step dt rest s e in
      check_cost o.send_sleep o.n_msg (sent_by o calls (check_send o (pos dt) s).1) s.send_count
        (check_send o (pos dt) s).1.send_count rest rest' dt (elapsed o calls)
        (sent_by-bound calls (check_send o (pos dt) s).1 rest' e') cost
