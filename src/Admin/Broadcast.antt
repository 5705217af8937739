-- ===== src/Admin/Broadcast.antt =====
-- AdminServer::listen: which broadcasts it answers.
use futronix_alexa.Base.{
  ℕ, zero, suc, ◌≡◌, ◌≤◌, ◌<◌, refl, ap, ◌∙◌, ◌&&◌, Option, some, none, List, [], ◌∷◌, length, set,
  splice, take, length-take, length-set, length-splice, codes, c_str, same_bytes, ltb,
  if◌then◌else◌, arith, store-some, lt→ltb,
}
use futronix_alexa.Storage.Database.{magic_word}
use futronix_alexa.Admin.{answer_broadcast}

-- The packet in the buffer, with its terminator, is the packet's string.
packet_string :
    (buffer packet : List ℕ)
    → length packet < length buffer
    → c_str (set (splice buffer 0 packet) (length packet) 0) ≡ c_str packet
packet_string [] packet h = absurd (omega arith)
packet_string (b ∷ buffer) [] h = refl
packet_string (b ∷ buffer) (zero ∷ packet) h = refl
packet_string (b ∷ buffer) (suc x ∷ packet) h =
    ap (◌∷◌ (suc x)) (packet_string buffer packet (omega arith))

-- The answer to a packet: the text 80, if it is the magic word.
abbrev pub answer_to : List ℕ → Option (List ℕ)
answer_to packet =
    if ltb 0 (length packet) && same_bytes (c_str packet) (c_str magic_word)
    then some (codes "80")
    else none

answer_text :
    (buffer packet bytes : List ℕ)
    → take 255 packet ≡ bytes
    → length buffer ≡ 512
    → length bytes ≤ 255
    → (buffer' : List ℕ) × (answer_broadcast buffer (some packet) ≡ some (buffer', answer_to bytes))
      × (length buffer' ≡ 512)
unfolding answer_broadcast
answer_text buffer packet [] e many short = (buffer, rw e, many)
answer_text buffer packet (x ∷ bytes) e many short =
    let text = set (splice buffer 0 (x ∷ bytes)) (length (x ∷ bytes)) 0 in
    let size = length-splice buffer 0 (x ∷ bytes) in
    let string : c_str text ≡ c_str (x ∷ bytes) =
      packet_string buffer (x ∷ bytes) (omega (arith, many)) in
    let filled = lt→ltb 0 (length (x ∷ bytes)) (omega arith) in
    let stored =
      store-some (splice buffer 0 (x ∷ bytes)) (length (x ∷ bytes)) 0 (omega (arith, many, size)) in
    (
      text,
      rw (e, filled, stored, string),
      length-set (splice buffer 0 (x ∷ bytes)) (length (x ∷ bytes)) 0 ∙ size ∙ many,
    )

-- Whatever its buffer of 512 bytes held before, `listen` never writes outside it, and it answers a
-- packet exactly if the packet is not empty and the string in its first 255 bytes is the magic
-- word; the answer is 80.
pub answer_broadcast_lem :
    (buffer packet : List ℕ)
    → length buffer ≡ 512
    → (buffer' : List ℕ) × (answer_broadcast buffer (some packet)
        ≡ some (buffer', answer_to (take 255 packet)))
      × (length buffer' ≡ 512)
answer_broadcast_lem buffer packet many =
    answer_text buffer packet (take 255 packet) refl many (omega (arith, length-take 255 packet))
