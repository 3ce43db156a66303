-- ===== src/Server/Messages.antt =====
-- embedded_server/websocket/WSListener.cpp: `RemoteConnection::readMessage`, which puts the frames of a
-- client's message together.
use squirrel_debug_server.Base.{
  ℕ, zero, suc, ◌≡◌, refl, ap, ◌∙◌, sym, ℤ, pos, negsuc, List, [], ◌∷◌, ◌++◌, Text, length,
  append_assoc, append-nil,
}
use squirrel_debug_server.Server.Parameters.{c_str}

-- What a frame brings: the size, and the data, of which `size` bytes are read.
abbrev pub Frame : Type 0
Frame = ℤ × Text

abbrev pub first_bytes {ℓ} : {A : Type ℓ} → ℕ → List A → List A
first_bytes zero xs = []
first_bytes (suc n) [] = []
first_bytes (suc n) (x ∷ xs) = x ∷ first_bytes n xs

-- `messageBuffer_`, and the messages that were logged, the first one first: each is given to the log as
-- `c_str()`, and ends at its first zero byte.
pub record Received : Type 0 where
  pub message_buffer : Text
  pub messages : List Text

unfoldable pub read_message : Frame → Received → Received
unfolding c_str
read_message (pos zero, data_) s = record {
  message_buffer = [];
  messages = s.messages ++ c_str s.message_buffer ∷ [];
}
read_message (pos (suc n), data_) s = record s {
  message_buffer = s.message_buffer ++ first_bytes (suc n) data_;
}
read_message (negsuc n, data_) s = s

unfoldable pub read_messages : List Frame → Received → Received
unfolding read_message
read_messages [] s = s
read_messages (f ∷ fs) s = read_messages fs (read_message f s)

abbrev concat : List Text → Text
concat [] = []
concat (t ∷ ts) = t ++ concat ts

-- The frames of the parts of a message, with their sizes, and the frame that ends it.
unfoldable pub frames : List Text → List Frame
frames [] = (pos 0, []) ∷ []
frames ([] ∷ ts) = frames ts
frames ((c ∷ t) ∷ ts) = (pos (length (c ∷ t)), c ∷ t) ∷ frames ts

first_bytes-length {ℓ} : {A : Type ℓ} (xs : List A) → first_bytes (length xs) xs ≡ xs
first_bytes-length [] = refl
first_bytes-length (x ∷ xs) = ap (λ ys. x ∷ ys) (first_bytes-length xs)

-- However a message is cut into frames, the end of it logs what was in the buffer and the parts in
-- their order, up to the first zero byte of them all, behind the messages before, and leaves the buffer
-- empty for the next.
pub read_messages-frames :
    (parts : List Text) (s : Received)
    → read_messages (frames parts) s ≡ record {
      message_buffer = [];
      messages = s.messages ++ c_str (s.message_buffer ++ concat parts) ∷ [];
    }
unfolding read_messages read_message frames
read_messages-frames [] s =
    ap (λ t. record { message_buffer = []; messages = s.messages ++ c_str t ∷ [] })
      (sym (append-nil s.message_buffer))
read_messages-frames ([] ∷ ts) s = read_messages-frames ts s
read_messages-frames ((c ∷ t) ∷ ts) s =
    read_messages-frames ts
      (record s { message_buffer = s.message_buffer ++ first_bytes (length (c ∷ t)) (c ∷ t) })
    ∙ ap
        (λ u. record {
          message_buffer = [];
          messages = s.messages ++ c_str ((s.message_buffer ++ u) ++ concat ts) ∷ [];
        })
        (first_bytes-length (c ∷ t))
    ∙ ap (λ u. record { message_buffer = []; messages = s.messages ++ c_str u ∷ [] })
        (append_assoc s.message_buffer (c ∷ t) (concat ts))
