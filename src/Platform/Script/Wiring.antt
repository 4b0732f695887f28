-- ===== src/Platform/Script/Wiring.antt =====
-- The platform that runs meets the laws of sockets.
use libstomp.Prelude.{
  ℕ, zero, suc, ◌≤◌, ◌<◌, ◌≡◌, ◌≢◌, refl, sym, Bool, [], ◌∷◌, ◌++◌, Text, Buffer, length, take,
  drop, ◌==◌, take-append_length, length-take_le, drop-append_length, append-nil, Bool-cases, inl,
  inr, arith,
}
use libstomp.Platform.Laws.{Closing, Finished, Wire, Unsplit}
use libstomp.Platform.Script.{Peer, absorb, deliver, wait_status_ready, script}

pub sent_le : (bs : Buffer) (w : Peer) → (absorb bs w).0.1 ≤ length bs
unfolding absorb
sent_le bs w = ground arith

pub output-absorb :
    (bs : Buffer) (w : Peer) → (absorb bs w).1.output ≡ w.output ++ take (absorb bs w).0.1 bs
unfolding absorb
output-absorb bs w = elim (Bool-cases (w.sends_left == 0)) [
  | inl spent ↦ rw (spent, absorb) (sym (append-nil w.output))
  | inr left ↦ rw (left, absorb)
]

pub input-absorb : (bs : Buffer) (w : Peer) → (absorb bs w).1.input ≡ w.input
unfolding absorb
input-absorb bs w = ground arith

pub absorb_progress :
    (b : ℕ) (bs : Buffer) (w : Peer) → (absorb (b ∷ bs) w).0.0 ≡ 0 → 0 < (absorb (b ∷ bs) w).0.1
unfolding absorb
absorb_progress b bs w h = ground arith

pub deliver_next :
    (b : ℕ) (rest : Text) (w : Peer) → w.input ≡ b ∷ rest → (deliver 1 w).0 ≡ (0, b ∷ [])
unfolding deliver
deliver_next b rest w h = rw h

pub input-deliver_next :
    (b : ℕ) (rest : Text) (w : Peer) → w.input ≡ b ∷ rest → (deliver 1 w).1.input ≡ rest
unfolding deliver
input-deliver_next b rest w h = rw h

pub output-deliver : (n : ℕ) (w : Peer) → (deliver n w).1.output ≡ w.output
unfolding deliver
output-deliver zero w = refl
output-deliver (suc n) w = ground arith

pub deliver_le : (n : ℕ) (w : Peer) → length (deliver n w).0.1 ≤ length w.input
unfolding deliver
deliver_le zero w = omega arith
deliver_le (suc n) w = by_input w.input
  where
    by_input :
        (t : Text)
        → length
            (elim t as (λ x. (ℕ × Buffer) × Peer) [
              | [] ↦ ((70014, []), w)
              | b ∷ bs ↦ ((0, take (suc n) (b ∷ bs)), record w { input = drop (suc n) (b ∷ bs) })
            ]).0.1
          ≤ length t
    by_input [] = omega arith
    by_input (b ∷ bs) = length-take_le (suc n) (b ∷ bs)

abbrev pub script_wire : (debug : Bool) → Wire (script debug)
script_wire debug = record {
  input = λ s w. w.input;
  output = λ s w. w.output;
  sent_le = λ s. sent_le;
  output-send = λ s. output-absorb;
  input-send = λ s. input-absorb;
  send_progress = λ s. absorb_progress;
  recv_next = λ s. deliver_next;
  input-recv = λ s. input-deliver_next;
  output-recv = λ s. output-deliver;
  recv_le = λ s. deliver_le;
  wait_ready = λ s w. wait_status_ready w.input;
  input-wait = λ s w. refl;
  output-wait = λ s w. refl;
  input-timeout = λ s r t w. refl;
  output-timeout = λ s r t w. refl;
}

pub deliver_whole :
    (bs rest : Text) (w : Peer)
    → bs ≢ []
    → w.input ≡ bs ++ rest
    → (deliver (length bs) w).0 ≡ (0, bs)
unfolding deliver
deliver_whole [] rest w ne h = absurd (ne refl)
deliver_whole (b ∷ bs) rest w ne h = rw (h, take-append_length bs rest)

pub input-deliver_whole :
    (bs rest : Text) (w : Peer)
    → bs ≢ []
    → w.input ≡ bs ++ rest
    → (deliver (length bs) w).1.input ≡ rest
unfolding deliver
input-deliver_whole [] rest w ne h = h
input-deliver_whole (b ∷ bs) rest w ne h = rw h (drop-append_length bs rest)

abbrev pub script_unsplit : (debug : Bool) → Unsplit (script debug) (script_wire debug)
script_unsplit debug = record {
  recv_whole = λ s. deliver_whole;
  input-recv_whole = λ s. input-deliver_whole;
}

pub script-Closing : (debug : Bool) → Closing (script debug) (script_wire debug)
script-Closing debug = record { output-shutdown = λ s w. refl; output-close = λ s w. refl }

deliver_end : (w : Peer) → w.input ≡ [] → (deliver 1 w).0.0 ≢ 0
unfolding deliver
deliver_end w h = ground arith

input-deliver_end : (w : Peer) → w.input ≡ [] → (deliver 1 w).1.input ≡ []
unfolding deliver
input-deliver_end w h = ground arith

pub script-Finished : (debug : Bool) → Finished (script debug) (script_wire debug)
script-Finished debug = record {
  recv_end = λ s. deliver_end;
  input-recv_end = λ s. input-deliver_end;
}
