-- ===== src/Buffer/Refine.antt =====
-- A valid CELLBuffer behaves as the bounded queue of the bytes that it holds.
use cpp_network_obj.Base.{
  ℕ, ◌≡◌, refl, Option, none, some, List, [], ◌∷◌, ◌>>=◌, >>=-eq-some, sym, ◌∙◌, ap, Option-cases,
  inl, inr, subst, arith, take-overwrite, take-take,
}
use cpp_network_obj.Buffer.{
  CellBuffer, contents, push, pop, popped, write_to_socket, read_from_socket, after_send, sent,
  offered, front_data, has_msg, send_failed, recv_failed, received,
}
use cpp_network_obj.Buffer.Invariant.{
  IsValid, push-IsValid, pop-IsValid, write_to_socket-IsValid, read_from_socket-IsValid,
}
use cpp_network_obj.Buffer.Queue.{length-contents, contents-popped, contents-after_send}
use cpp_network_obj.Buffer.Framing.{has_msg-is_ready}
use cpp_network_obj.Buffer.Spec.{
  Op, do_push, do_pop, do_write, do_read, do_has_msg, do_data, Output, flag, ret, seen, wrote, done,
}
use cpp_network_obj.Buffer.Spec

pub step : CellBuffer → Op → Option (Output × CellBuffer)
step b (do_push bytes) = let (ok, b') = push b bytes in some (flag ok, b')
step b (do_pop n) = pop b n >>= λ b'. some (done, b')
step b (do_write sock reply) =
    write_to_socket b sock reply >>= λ (r, b'). some (wrote (offered b sock) r, b')
step b (do_read reply) = read_from_socket b reply >>= λ (r, b'). some (ret r, b')
step b do_has_msg = some (flag (has_msg b), b)
step b (do_data n) = front_data b n >>= λ bytes. some (seen bytes, b)

pub run : CellBuffer → List Op → Option (List Output)
run b [] = some []
run b (op ∷ ops) = step b op >>= λ (out, b'). run b' ops >>= λ outs. some (out ∷ outs)

-- The abstract view of a result.
abbrev view : Option (Output × CellBuffer) → Option (Output × List ℕ)
view none = none
view (some (out, b)) = some (out, contents b)

pub step_refines :
    {b : CellBuffer} (op : Op) → IsValid b → view (step b op) ≡ Spec.step b.size (contents b) op
unfolding step Spec.step push pop write_to_socket read_from_socket offered front_data
step_refines {b} (do_push bytes) v =
    ground (arith, length-contents v, take-overwrite b.last bytes b.mem)
step_refines {b} (do_pop n) v = ground (arith, length-contents v, contents-popped {b = b} n v)
step_refines {b} (do_write sock send_failed) v = ground (arith, length-contents v)
step_refines {b} (do_write sock (sent n)) v =
    ground (arith, length-contents v, contents-after_send {b = b} n v)
step_refines {b} (do_read recv_failed) v = ground (arith, length-contents v)
step_refines {b} (do_read (received bytes)) v =
    ground (arith, length-contents v, take-overwrite b.last bytes b.mem)
step_refines {b} do_has_msg v = rw (has_msg-is_ready {b = b} v) refl
step_refines {b} (do_data n) v = ground (arith, length-contents v, take-take n b.last b.mem)

step-IsValid :
    (b : CellBuffer) (op : Op) {b' : CellBuffer} {out : Output}
    → IsValid b
    → step b op ≡ some (out, b')
    → IsValid b'
unfolding step front_data
step-IsValid b (do_push bytes) v e = subst IsValid (ground arith) (push-IsValid {b = b} bytes v)
step-IsValid b (do_pop n) v e =
    let (b₁, e₁, e₂) = >>=-eq-some (pop b n) _ e in pop-IsValid {b = b} n v (ground arith)
step-IsValid b (do_write sock reply) v e =
    let (r, e₁, e₂) = >>=-eq-some (write_to_socket b sock reply) _ e in
    write_to_socket-IsValid {b = b} {ret = r.0} sock reply v (ground arith)
step-IsValid b (do_read reply) v e =
    let (r, e₁, e₂) = >>=-eq-some (read_from_socket b reply) _ e in
    read_from_socket-IsValid {b = b} {ret = r.0} reply v (ground arith)
step-IsValid b do_has_msg v e = subst IsValid (ground arith) v
step-IsValid b (do_data n) v e = subst IsValid (ground arith) v

size-step :
    (b : CellBuffer) (op : Op) {b' : CellBuffer} {out : Output}
    → step b op ≡ some (out, b')
    → b'.size ≡ b.size
unfolding step push pop popped write_to_socket read_from_socket after_send front_data
size-step b (do_push bytes) e = ground arith
size-step b (do_pop n) e = ground arith
size-step b (do_write sock send_failed) e = ground arith
size-step b (do_write sock (sent n)) e = ground arith
size-step b (do_read recv_failed) e = ground arith
size-step b (do_read (received bytes)) e = ground arith
size-step b do_has_msg e = ground arith
size-step b (do_data n) e = ground arith

-- No sequence of calls, with any replies of the kernel, tells a valid buffer from the bounded queue of
-- the bytes that it holds: the results agree, the bytes that are read through data() and those that
-- send() is called with are the same, byte for byte, and one run is undefined where the other is asked
-- for more bytes than it has.
pub run_refines :
    (b : CellBuffer) (ops : List Op) → IsValid b → run b ops ≡ Spec.run b.size (contents b) ops
unfolding run Spec.run
run_refines b [] v = refl
run_refines b (op ∷ ops) v = elim (Option-cases (step b op)) [
  | inl e ↦ ground (arith, step_refines {b = b} op v)
  | inr (r, e) ↦
      rw (e, sym (step_refines {b = b} op v) ∙ ap view e)
        (rw (run_refines r.1 ops (step-IsValid b op v e), size-step b op {b' = r.1} {out = r.0} e))
]
