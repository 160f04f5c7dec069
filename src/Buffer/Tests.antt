-- ===== src/Buffer/Tests.antt =====
-- The buffers on small inputs, eight bytes each.
use wx_cache_proxy.Base.{ℕ, ◌≡◌, ◌⊎◌, refl, true, List, [], ◌∷◌, ◌++◌, arith, drop, nc_ok}
use wx_cache_proxy.Buffer.Mbuf.{Mbuf, last, split_last, mbuf_size, mbuf_copy, mbuf_get}
use wx_cache_proxy.Buffer.Content.{content, total, IsValid}
use wx_cache_proxy.Buffer.Message.{
  Message, whole, divided, msg_parsed, msg_ensure_mbuf, copy_last, msg_append, msg_prepend,
}
use wx_cache_proxy.Buffer.Append.{IsSound, msg_append-content, msg_prepend-content}
use wx_cache_proxy.Buffer.Divide.{IsParsedTo, Divides, msg_parsed-Divides}
use wx_cache_proxy.Buffer.Send.{Vector, gather_all, settle}
use wx_cache_proxy.Buffer.Send.Settle.{IsCounted, AllSettled, contents, remaining, settle-contents}
use wx_cache_proxy.Buffer.Send.Gather.{IsWithin, Extends, gather_all-Extends}

abbrev one_read : Mbuf
one_read = record { bytes = 1 ∷ 2 ∷ 3 ∷ 4 ∷ []; pos = 1 }

abbrev two : Mbuf
two = record { bytes = 5 ∷ 6 ∷ []; pos = 0 }

abbrev message : Message
message = record { mhdr = one_read ∷ two ∷ []; mlen = 6; pos = 1 }

one_read-IsValid : IsValid 8 one_read
one_read-IsValid = record { ordered = omega arith; within = omega arith }

two-IsValid : IsValid 8 two
two-IsValid = record { ordered = omega arith; within = omega arith }

message-IsSound : IsSound 8 message
unfolding total
message-IsSound = record { buffers = (one_read-IsValid, (two-IsValid, tt)); measured = refl }

message-IsCounted : IsCounted 8 message
unfolding total
message-IsCounted = record { buffers = (one_read-IsValid, (two-IsValid, tt)); counted = refl }

abbrev appended : Message
appended = record {
  mhdr = one_read ∷ record { bytes = 5 ∷ 6 ∷ 7 ∷ 8 ∷ []; pos = 0 } ∷ [];
  mlen = 8;
  pos = 1;
}

appends : msg_append 8 message (7 ∷ 8 ∷ []) true ≡ (nc_ok, appended)
unfolding msg_append msg_ensure_mbuf split_last mbuf_size copy_last mbuf_copy
appends = refl

msg_append-content_example :
    IsSound 8 appended × (content appended.mhdr ≡ content message.mhdr ++ (7 ∷ 8 ∷ []))
msg_append-content_example =
    msg_append-content 8 (omega arith) message (7 ∷ 8 ∷ []) true message-IsSound (omega arith)
      appends

abbrev prepended : Message
prepended = record {
  mhdr = record { bytes = 7 ∷ 8 ∷ []; pos = 0 } ∷ one_read ∷ two ∷ [];
  mlen = 8;
  pos = 1;
}

prepends : msg_prepend message (7 ∷ 8 ∷ []) true ≡ (nc_ok, prepended)
unfolding msg_prepend mbuf_get mbuf_copy
prepends = refl

msg_prepend-content_example :
    IsSound 8 prepended × (content prepended.mhdr ≡ (7 ∷ 8 ∷ []) ++ content message.mhdr)
msg_prepend-content_example =
    msg_prepend-content 8 (omega arith) message (7 ∷ 8 ∷ []) true message-IsSound (omega arith)
      prepends

message-IsParsedTo : IsParsedTo message (one_read ∷ []) two
message-IsParsedTo = record { shape = refl; after_read = omega arith; within = omega arith }

msg_parsed-Divides_example :
    ((message.pos ≡ last two) × (msg_parsed message true true ≡ whole message))
    ⊎ ((a : Message) × (b : Message) × (msg_parsed message true true ≡ divided a b)
        × Divides 8 message two a b)
msg_parsed-Divides_example =
    msg_parsed-Divides 8 (omega arith) message (one_read ∷ []) two message-IsSound
      message-IsParsedTo

settle-contents_example :
    (remaining (settle (message ∷ message ∷ []) 6) ≡ drop 6 (contents (message ∷ message ∷ [])))
    × AllSettled (message ∷ message ∷ []) (settle (message ∷ message ∷ []) 6)
settle-contents_example =
    settle-contents 8 (omega arith) (message ∷ message ∷ []) 6
      (message-IsCounted, (message-IsCounted, tt))

abbrev no_vector : Vector
no_vector = record { entries = []; n = 0; nsend = 0 }

no_vector-IsWithin : IsWithin no_vector
no_vector-IsWithin = record {
  counted = refl;
  entries = refl;
  few = omega arith;
  short = omega arith;
}

gather_all-Extends_example :
    let (taken, out) = gather_all (message ∷ message ∷ []) no_vector in
    ((others : List Message) × (message ∷ message ∷ [] ≡ taken ++ others))
    × ((rest : List ℕ) × Extends no_vector out (contents taken) rest)
gather_all-Extends_example =
    gather_all-Extends 8 (omega arith) (message ∷ message ∷ []) no_vector no_vector-IsWithin
      (message-IsSound.buffers, (message-IsSound.buffers, tt))
