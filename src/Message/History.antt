-- ===== src/Message/History.antt =====
-- src/server.c, `build_message_list`: what fits the memory that is allocated for the list, and what
-- is left out of it.
use datacomm_chat_server.Database.{get_user_account}
use datacomm_chat_server.Request.{deref}
use datacomm_chat_server.Prelude.{
  ℕ, ◌+◌, ◌<◌, ◌≡◌, List, [], ◌∷◌, ◌++◌, length, length-append, arith, All, some, Flow, next,
  Bool-cases, inl, inr, not, if◌then◌else◌, ◌⊎◌, leb, refl, ◌≢◌,
}
use datacomm_chat_server.Prelude.Ends.{◌>>=◌}
use datacomm_chat_server.CString.{Str, etx}
use datacomm_chat_server.Ndbm.{Ndbm}
use datacomm_chat_server.Records.{ChannelInfo, MessageInfo, UserAccount, Server, timestamp_size}
use datacomm_chat_server.Request.Keeps.{Keeps, Keeps-next, Keeps-then, Keeps-bind}
use datacomm_chat_server.Message.{
  message_list_size, message_text, print_messages, build_message_list, same_channel, print_one,
}

-- A message as the server stores it has a time stamp of 32 bytes.
abbrev pub IsStamped : MessageInfo → Type 0
IsStamped m = length m.time_stamp ≡ timestamp_size

module _ ⦃N : Ndbm⦄ where
  length-message_text :
      (sender : UserAccount) (m : MessageInfo)
      → IsStamped m
      → length (message_text sender m)
        ≡ length sender.display_name + length m.message_content + timestamp_size + 3
  unfolding message_text
  length-message_text sender m h = omega (
    arith,
    h,
    length-append sender.display_name
        (etx ∷ (m.message_content ++ etx ∷ (m.time_stamp ++ etx ∷ []))),
    length-append m.message_content (etx ∷ (m.time_stamp ++ etx ∷ [])),
    length-append m.time_stamp (etx ∷ []),
  )

  print_one-fits :
      (sender : UserAccount) (m : MessageInfo) (size offset : ℕ) (rest : ℕ → Flow Str)
      → offset < size
      → IsStamped m
      → ((after : ℕ) → after < size → Keeps (λ list. after + length list < size) (rest after))
      → Keeps (λ list. offset + length list < size) (print_one sender m size offset rest)
  unfolding print_one
  print_one-fits sender m size offset rest room h k =
      let after =
        offset + (length sender.display_name + length m.message_content + timestamp_size + 3) in
      let len = length-message_text sender m h in
      elim (Bool-cases (leb size after)) [
        | inl full ↦ rw full (Keeps-next [] (omega arith))
        | inr fits ↦ rw fits (
            Keeps-then (λ tail. after + length tail < size) (rest after)
              (λ tail. next (message_text sender m ++ tail)) (k after (ground (arith, fits)))
              (λ tail b.
                Keeps-next (message_text sender m ++ tail)
                  (omega (arith, b, len, length-append (message_text sender m) tail))))
      ]

  print_messages-fits :
      (s : Server) (c : ChannelInfo) (size offset : ℕ) (ms : List MessageInfo)
      → offset < size
      → All IsStamped ms
      → Keeps (λ list. offset + length list < size) (print_messages s c size offset ms)
  unfolding print_messages
  print_messages-fits s c size offset [] room h = Keeps-next [] (omega arith)
  print_messages-fits s c size offset (m ∷ ms) room h = elim (Bool-cases (same_channel c m)) [
    | inl here ↦ rw here (
        Keeps-bind (deref (get_user_account s m.user_id))
          (λ sender. print_one sender m size offset (λ after. print_messages s c size after ms))
          (λ sender.
            print_one-fits sender m size offset (λ after. print_messages s c size after ms) room h.0
              (λ after r. print_messages-fits s c size after ms r h.1)))
    | inr other ↦ rw other (print_messages-fits s c size offset ms room h.1)
  ]

  message_list_size_positive :
      (c : ChannelInfo) (ms : List MessageInfo) → 0 < message_list_size c ms
  unfolding message_list_size
  message_list_size_positive c [] = omega arith
  message_list_size_positive c (m ∷ ms) = ground (arith, message_list_size_positive c ms)

  -- Whatever the stored messages are, as long as each has a time stamp of 32 bytes: the list that is
  -- printed for a channel fits the memory that was allocated for it, with its NUL.
  pub build_message_list-fits :
      (s : Server) (ms : List MessageInfo) (c : ChannelInfo) (list : Str)
      → All IsStamped ms
      → build_message_list s ms (some c) ≡ next list
      → length list < message_list_size c ms
  unfolding build_message_list
  build_message_list-fits s [] c list h e =
      let k = Keeps-next {P = λ (l : Str). length l < 1} [] (omega arith) in k.at list e
  build_message_list-fits s (m ∷ ms) c list h e =
      let room = message_list_size_positive c (m ∷ ms) in
      let fits = print_messages-fits s c (message_list_size c (m ∷ ms)) 0 (m ∷ ms) room h in
      omega (arith, fits.at list e)

  -- The texts of all messages of a channel.
  unfoldable pub full_history : Server → ChannelInfo → List MessageInfo → Flow Str
  full_history s c [] = next []
  full_history s c (m ∷ ms) =
      let rest = full_history s c ms in
      if not (same_channel c m) then rest else do
        sender ← deref (get_user_account s m.user_id)
        tail ← rest
        next (message_text sender m ++ tail)

  -- Either there is nothing to list, or all of it is longer than what is allocated.
  Exceeds : ℕ → Str → Type 0
  Exceeds size list = ((size ≡ 1) × (list ≡ [])) ⊎ (size < length list)

  message_text-Exceeds :
      (sender : UserAccount) (m : MessageInfo) (size : ℕ) (tail : Str)
      → IsStamped m
      → Exceeds size tail
      → Exceeds
          (length m.message_content + 1 + timestamp_size + size)
          (message_text sender m ++ tail)
  unfolding Exceeds
  message_text-Exceeds sender m size tail h (inl (one, none_left)) = inr (
      omega
        (arith, one, length-message_text sender m h, length-append (message_text sender m) tail))
  message_text-Exceeds sender m size tail h (inr more) = inr (
      omega
        (arith, more, length-message_text sender m h, length-append (message_text sender m) tail))

  full_history-Exceeds :
      (s : Server) (c : ChannelInfo) (ms : List MessageInfo)
      → All IsStamped ms
      → Keeps (Exceeds (message_list_size c ms)) (full_history s c ms)
  unfolding full_history message_list_size Exceeds
  full_history-Exceeds s c [] h = Keeps-next [] (inl (refl, refl))
  full_history-Exceeds s c (m ∷ ms) h = elim (Bool-cases (same_channel c m)) [
    | inl here ↦ rw here (
        Keeps-bind (deref (get_user_account s m.user_id))
          (λ sender. do tail ← full_history s c ms; next (message_text sender m ++ tail))
          (λ sender.
            Keeps-then (Exceeds (message_list_size c ms)) (full_history s c ms)
              (λ tail. next (message_text sender m ++ tail)) (full_history-Exceeds s c ms h.1)
              (λ tail k.
                Keeps-next (message_text sender m ++ tail)
                  (message_text-Exceeds sender m (message_list_size c ms) tail h.0 k))))
    | inr other ↦ rw other (full_history-Exceeds s c ms h.1)
  ]

  -- When the stored time stamps have 32 bytes, the sender of each message of the channel has an
  -- account, and the channel has a message: a list that is printed is shorter than the texts of all
  -- the channel's messages, so that a part is always left out.
  pub build_message_list_incomplete :
      (s : Server) (ms : List MessageInfo) (c : ChannelInfo) (list full : Str)
      → All IsStamped ms
      → build_message_list s ms (some c) ≡ next list
      → full_history s c ms ≡ next full
      → full ≢ []
      → length list < length full
  unfolding Exceeds
  build_message_list_incomplete s ms c list full h e f some_text =
      let fits = build_message_list-fits s ms c list h e in
      elim ((full_history-Exceeds s c ms h).at full f) [
        | inl (one, no_text) ↦ absurd (some_text no_text)
        | inr more ↦ omega (arith, fits, more)
      ]
