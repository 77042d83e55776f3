-- ===== src/OldServer/Draining.antt =====
-- The message loop of the old RecvData on a buffer of whole messages and a rest.
use cpp_network_obj.Base.{
  ℕ, zero, suc, ◌+◌, ◌-◌, ◌^◌, ◌≤◌, ◌<◌, ◌≡◌, refl, ap, sym, ◌∙◌, true, false, Option, some, List,
  [], ◌∷◌, ◌++◌, All, concat, length, take, drop, slice, overwrite, length-append, length-take,
  length-overwrite, take-overwrite, take-drop, drop-append_eq, take-append_eq, take-take,
  append_assoc, leb, leb→le, lt→leb_false, lt→ltb, le→leb, arith, Bool-cases, inl, inr,
}
use cpp_network_obj.Message.{data_length}
use cpp_network_obj.Buffer.Framing.{IsFramed, data_length-framed, data_length-take}
use cpp_network_obj.OldServer.{is_length, message_loop}
use cpp_network_obj.OldServer.Messages.{message_loop_go}

-- A handler that returns on every message in memory.
abbrev pub IsTotal : {S : Type 0} → (S → List ℕ → Option S) → Type 0
IsTotal {S} f =
    (s : S) (mem : List ℕ) → data_length mem ≤ length mem → (s' : S) × (f s mem ≡ some s')

-- The handler is called on the messages one after another.
pub data Handled {S : Type 0} (f : S → List ℕ → Option S) : S → List (List ℕ) → S → Type 0 where
  done : (s : S) → Handled f s [] s
  handled :
      {s s' s'' : S} {ms : List (List ℕ)} (mem m : List ℕ)
      → take (data_length mem) mem ≡ m
      → f s mem ≡ some s'
      → Handled f s' ms s''
      → Handled f s (m ∷ ms) s''

-- A message that its own length field, a short, describes.
abbrev pub IsMessage : List ℕ → Type 0
IsMessage m = IsFramed m × (length m < 2 ^ 15)

-- A rest that the loop leaves: shorter than a header, or than its own length field, a short, says.
abbrev pub IsRest : List ℕ → Type 0
IsRest r = 4 ≤ length r → (length r < data_length r) × (data_length r < 2 ^ 15)

-- The block after its first `n` bytes are removed, of which `last` are in use.
abbrev moved : List ℕ → ℕ → ℕ → List ℕ
moved mem last n = overwrite 0 (slice n (last - n) mem) mem

zero_add : (n : ℕ) → n ≡ 0 + n
zero_add n = omega arith

moved-rest :
    (mem m x : List ℕ) (last : ℕ)
    → last ≤ length mem
    → take last mem ≡ m ++ x
    → (last ≡ length m + length x)
      × (last - length m ≡ length x)
      × (take (length x) (moved mem last (length m)) ≡ x)
      × (length (moved mem last (length m)) ≡ length mem)
moved-rest mem m x last inside holds =
    let size : last ≡ length m + length x =
      omega (arith, length-take last mem, ap length holds, length-append m x, inside) in
    let part : slice (length m) (last - length m) mem ≡ x =
      take-drop (length m) (last - length m) mem
      ∙ ap (λ k. drop (length m) (take k mem)) (omega (arith, size))
      ∙ ap (drop (length m)) holds
      ∙ drop-append_eq (length m) m x refl in
    (
      size,
      omega (arith, size),
      ap (λ l. take (length x) (overwrite 0 l mem)) part
          ∙ ap (λ n. take n (overwrite 0 x mem)) (zero_add (length x))
          ∙ take-overwrite 0 x mem (omega arith),
      ap (λ l. length (overwrite 0 l mem)) part
          ∙ length-overwrite 0 x mem (omega (arith, size, inside)),
    )

-- Where the block does not begin with a whole message, the loop ends.
abbrev Stops : List ℕ → ℕ → Type 0
Stops mem last = leb 4 last ≡ true → (is_length mem ≡ true) × (leb (data_length mem) last ≡ false)

loop_stop :
    {S : Type 0} (f : S → List ℕ → Option S) (fuel : ℕ) (s : S) (mem : List ℕ) (last : ℕ)
    → Stops mem last
    → message_loop f (suc fuel) s mem last ≡ some (s, mem, last)
unfolding message_loop
loop_stop f fuel s mem last stops = elim (Bool-cases (leb 4 last)) [
  | inr short ↦ rw (short, message_loop) refl
  | inl header ↦
      let (positive, part) = stops header in
      rw (header, message_loop) (rw (positive, message_loop) (rw (part, message_loop) refl))
]

rest-Stops :
    (mem rest : List ℕ) (last : ℕ)
    → last ≡ length rest
    → take last mem ≡ rest
    → IsRest rest
    → Stops mem last
rest-Stops mem rest last size holds stop header =
    let long = leb→le 4 last header in
    let same : data_length rest ≡ data_length mem =
      ap data_length (sym holds) ∙ data_length-take last mem long in
    let (part, short) = stop (omega (arith, long, size)) in
    (
      lt→ltb (data_length mem) (2 ^ 15) (omega (arith, same, short)),
      lt→leb_false (data_length mem) last (omega (arith, same, part, size)),
    )

-- The end of a run of the loop: the messages handled, and the rest at the front of the block.
pub record Emptied {S : Type 0} (f : S → List ℕ → Option S) (fuel : ℕ) (s : S) (mem : List ℕ)
    (last : ℕ) (ms : List (List ℕ)) (rest : List ℕ) : Type 0 where
  pub state : S
  pub block : List ℕ
  pub runs : message_loop f fuel s mem last ≡ some (state, block, length rest)
  pub called : Handled f s ms state
  pub left : take (length rest) block ≡ rest
  pub size : length block ≡ length mem

module _ {S : Type 0} {f : S → List ℕ → Option S} (total : IsTotal f) where
  loop_rest :
      (fuel : ℕ) (s : S) (mem rest : List ℕ) (last : ℕ)
      → last ≤ length mem
      → take last mem ≡ rest
      → IsRest rest
      → Emptied f (suc fuel) s mem last [] rest
  unfolding message_loop
  loop_rest fuel s mem rest last inside holds stop =
      let size : last ≡ length rest =
        omega (arith, length-take last mem, ap length holds, inside) in
      record {
        state = s;
        block = mem;
        runs =
            loop_stop f fuel s mem last (rest-Stops mem rest last size holds stop)
            ∙ ap (λ n. some (s, mem, n)) size;
        called = Handled.done s;
        left = ap (λ n. take n mem) (sym size) ∙ holds;
        size = refl;
      }

  pub message_loop-Emptied :
      (ms : List (List ℕ)) (fuel : ℕ) (s : S) (mem rest : List ℕ) (last : ℕ)
      → length ms < fuel
      → last ≤ length mem
      → All IsMessage ms
      → IsRest rest
      → take last mem ≡ concat ms ++ rest
      → Emptied f fuel s mem last ms rest
  message_loop-Emptied ms zero s mem rest last enough inside fs stop holds =
      absurd (omega (arith, enough))
  message_loop-Emptied [] (suc fuel) s mem rest last enough inside fs stop holds =
      loop_rest fuel s mem rest last inside holds stop
  message_loop-Emptied (m ∷ ms) (suc fuel) s mem rest last enough inside ((fm, short), fs) stop
        holds =
      let x = concat ms ++ rest in
      let holds' : take last mem ≡ m ++ x = holds ∙ append_assoc m (concat ms) rest in
      let (size, size', left, block) = moved-rest mem m x last inside holds' in
      let long : 4 ≤ last = omega (arith, size, fm.0) in
      let len : data_length mem ≡ length m =
        sym (data_length-take last mem long) ∙ ap data_length holds' ∙ data_length-framed m x fm in
      let frame : take (data_length mem) mem ≡ m =
        ap (λ k. take k mem) len
        ∙ sym (take-take (length m) last mem (omega (arith, size)))
        ∙ ap (take (length m)) holds'
        ∙ take-append_eq (length m) m x refl in
      let (s', returned) = total s mem (omega (arith, len, size, inside)) in
      let after =
        message_loop-Emptied ms fuel s' (moved mem last (length m)) rest (last - length m)
          (omega (arith, enough)) (omega (arith, block, inside)) fs stop
          (ap (λ n. take n (moved mem last (length m))) size' ∙ left) in
      record {
        state = after.state;
        block = after.block;
        runs =
            message_loop_go f fuel s mem last (le→leb 4 last long)
              (lt→ltb (data_length mem) (2 ^ 15) (omega (arith, len, short)))
              (le→leb (data_length mem) last (omega (arith, len, size)))
            ∙ rw returned (ap (λ n. message_loop f fuel s' (moved mem last n) (last - n)) len)
            ∙ after.runs;
        called = Handled.handled mem m frame returned after.called;
        left = after.left;
        size = after.size ∙ block;
      }
