-- ===== src/Client/Drain/Stuck.antt =====
-- The dispatch loop on a message whose length field is 0.
use cpp_network_obj.Base.{
  ℕ, zero, suc, ◌≤◌, ◌≡◌, refl, ap, sym, subst, ◌∙◌, true, none, some, arith,
}
use cpp_network_obj.Message.{data_length}
use cpp_network_obj.Buffer.{CellBuffer, contents, popped, pop}
use cpp_network_obj.Buffer
use cpp_network_obj.Buffer.Invariant.{IsValid, pop-IsValid}
use cpp_network_obj.Buffer.Queue.{length-contents, contents-popped}
use cpp_network_obj.Buffer.Framing.{is_ready, has_msg-is_ready, data_length-take}
use cpp_network_obj.Client.{CellClient, has_msg, pop_front_msg}
use cpp_network_obj.Client.Drain.{Handler, drain}
use cpp_network_obj.Client.Drain.Messages.{HandlerLaws, drain_step}

-- The buffer begins with a header whose dataLength is 0.
pub record IsZeroHeader (b : CellBuffer) : Type 0 where
  pub valid : IsValid b
  pub header : 4 ≤ b.last
  pub zero_length : data_length (contents b) ≡ 0

module _ {b : CellBuffer} (z : IsZeroHeader b) where
  zero-has_msg : Buffer.has_msg b ≡ true
  unfolding is_ready
  zero-has_msg =
      has_msg-is_ready z.valid ∙ ground (arith, z.header, z.zero_length, length-contents z.valid)

  zero-data_length : data_length b.mem ≡ 0
  zero-data_length = sym (data_length-take b.last b.mem z.header) ∙ z.zero_length

  zero-pop : pop b (data_length b.mem) ≡ some (popped b 0)
  unfolding pop
  zero-pop = ground (arith, zero-data_length)

  zero-popped : IsZeroHeader (popped b 0)
  unfolding popped
  zero-popped = record {
    valid = pop-IsValid {b = b} (data_length b.mem) z.valid zero-pop;
    header = omega (arith, z.header);
    zero_length = ap data_length (contents-popped {b = b} 0 z.valid (omega arith)) ∙ z.zero_length;
  }

-- Once a valid receive buffer begins with a header whose length field is 0, the dispatch loop does
-- not end, for any handler that returns and leaves the receive buffer alone: no fuel is enough.
pub drain_never :
    {S : Type 0} {handle : Handler S} (laws : HandlerLaws handle) (fuel : ℕ) (s : S)
    (c : CellClient)
    → laws.Inv c
    → IsZeroHeader c.recv_buff
    → drain handle fuel s c ≡ none
unfolding drain has_msg pop_front_msg
drain_never laws zero s c i z = refl
drain_never {handle = handle} laws (suc fuel) s c i z =
    let ((s', c'), returned, same, i') =
      laws.returns s c c.recv_buff.mem i (omega (arith, zero-data_length z)) in
    let z' : IsZeroHeader c'.recv_buff = subst IsZeroHeader (sym same) z in
    let c'' : CellClient = record c' { recv_buff = popped c'.recv_buff 0 } in
    drain_step handle fuel s s' c c' c'' (zero-has_msg z) returned
      (rw (zero-has_msg z', zero-pop z'))
    ∙ drain_never laws fuel s' c'' (laws.Inv-recv_buff c' _ i') (zero-popped z')
