-- ===== src/Server/Unused.antt =====
-- What of src/server/src/servernetwork/servernetwork.cpp runs without effect on the rest: the thread
-- of the queue, which nothing fills, and two members that nothing calls.
use open_simp.Prelude.{
  ℕ, zero, suc, ◌≡◌, refl, ◌++◌, Bool, List, [], ◌∷◌, Option, none, some, Bytes, Result, ok, fault,
  uninitialised, ◌>>=◌, at, at_ok, get_elem?, get_elem?_total, get_elem?-lt, sym, ap, ◌∙◌,
  append-nil, append_assoc, bind_agree, length, Returns, arith,
}
use open_simp.Cryptography.{copy_range}
use open_simp.Cryptography.RoundTrip.{copy_range-append}
use open_simp.Server.{Socket, ServerNetwork}
use open_simp.Server.Invariant.{IsValid}

-- `isOp`
unfoldable pub is_op : ℕ → ServerNetwork → Result Bool
is_op iter w = at w.client_op_array iter

-- The loop of `convertToString`, with `s` so far and `n` rounds left.
unfoldable convert_loop : Bytes → ℕ → ℕ → Bytes → Result Bytes
convert_loop a i zero s = ok s
convert_loop a i (suc n) s = do x ← at a i; convert_loop a (suc i) n (s ++ x ∷ [])

unfoldable pub convert_to_string : Bytes → ℕ → Result Bytes
unfolding convert_loop
convert_to_string a size = convert_loop a 0 size []

-- One round of `sendQueuedMessage`. Its loop over a queue that holds something starts at an index
-- that is never set.
unfoldable pub queue_round : List Bytes → Option Socket → ServerNetwork → Result ServerNetwork
queue_round vec none w = ok w
queue_round [] (some client) w = ok w
queue_round (x ∷ vec) (some client) w = fault uninitialised

-- Every client has its flag.
is_op-ok :
    (i : ℕ) (client : Socket) (w : ServerNetwork)
    → IsValid w
    → get_elem? w.client_array i ≡ some client
    → Returns (λ flag. get_elem? w.client_op_array i ≡ some flag) (is_op i w)
unfolding is_op
is_op-ok i client w v here =
    let (flag, e) =
      get_elem?_total w.client_op_array i
        (omega (arith, v.ops, get_elem?-lt w.client_array i client here)) in
    rw (at_ok w.client_op_array i flag e) e

convert_loop-copies :
    (n i : ℕ) (a s : Bytes) → convert_loop a i n s ≡ (copy_range a i n >>= λ t. ok (s ++ t))
unfolding convert_loop copy_range
convert_loop-copies zero i a s = ap ok (sym (append-nil s))
convert_loop-copies (suc n) i a s = sym (
    bind_agree (at a i) _ _ _ (λ x _.
      bind_agree (copy_range a (suc i) n) _ _ (λ t. ok ((s ++ x ∷ []) ++ t))
        (λ rest _. ap ok (sym (append_assoc s (x ∷ []) rest)))
      ∙ sym (convert_loop-copies n (suc i) a (s ++ x ∷ []))))

-- The first bytes of an array are copied as they are.
convert_to_string-copies : (m rest : Bytes) → convert_to_string (m ++ rest) (length m) ≡ ok m
unfolding convert_to_string
convert_to_string-copies m rest =
    convert_loop-copies (length m) 0 (m ++ rest) []
    ∙ rw (copy_range-append m [] rest 0 (length m) refl refl)
