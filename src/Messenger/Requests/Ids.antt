-- ===== src/Messenger/Requests/Ids.antt =====
-- The ids of messages and transactions, which pass through an int on their way to a header.
use libstomp.Prelude.{
  ℕ, ◌+◌, ◌*◌, ◌^◌, ◌%◌, ◌<◌, ◌≡◌, ap, some, text, pos, to_int, to_size, is_natural, size_mod,
  int_limit, arith,
}
use libstomp.Platform.{Apr}
use libstomp.Messenger.Requests.{narrowed, stomp_write_message_id, stomp_write_transaction_id}

narrowed_wrap : (n k : ℕ) → n < int_limit → narrowed (pos (n + 2 ^ 32 * k)) ≡ pos n
unfolding narrowed to_size
narrowed_wrap n k h =
    let e : (n + 2 ^ 32 * k) % size_mod % 2 ^ 32 ≡ n = omega arith in
    unfold to_int in ground (arith, e)

module _ ⦃apr : Apr⦄ (h : apr.Hash) (n k : ℕ) (small : n < int_limit) where
  -- An id below 2 ^ 31 is sent as it is, and every id that is a multiple of 2 ^ 32 above it is sent
  -- as the same number, for messages and for transactions.
  pub ids_narrowed :
      (stomp_write_message_id h (pos (n + 2 ^ 32 * k))
        ≡ apr.hash_set h (text "id") (some (apr.itoa (pos n))))
      × (stomp_write_transaction_id h (pos (n + 2 ^ 32 * k))
          ≡ apr.hash_set h (text "transaction") (some (apr.itoa (pos n))))
  unfolding stomp_write_message_id stomp_write_transaction_id is_natural
  ids_narrowed = (
    ap (λ z. apr.hash_set h (text "id") (some (apr.itoa z))) (narrowed_wrap n k small),
    ap (λ z. apr.hash_set h (text "transaction") (some (apr.itoa z))) (narrowed_wrap n k small),
  )
