-- ===== src/Tests/DataStream.antt =====
-- Runs of DataStreamChannel.ts, with a cipher that only appends a tag and property lists of one byte
-- and the data.
use bunatv.Prelude.{ℕ, ◌+◌, ◌^◌, ◌≡◌, refl, List, [], ◌∷◌, ◌++◌, arith, none, some, length, take}
use bunatv.Prelude.Int.{pos}
use bunatv.Buffers.Stream.{StreamBuffer, contents, new_stream}
use bunatv.Encryption.{EncryptionLayer, enabled, active_keys, hap}
use bunatv.Encryption.Frames.{Linked}
use bunatv.DataStream.Varint.{read_varint, write_varint, write_rounds, read_varint-write_varint}
use bunatv.DataStream.Protobufs.{decode_protobufs, encode_protobufs}
use bunatv.DataStream.RoundTrip.{
  AllSendable, decode_protobufs-encode_protobufs, decode_protobufs_eight, decode_protobufs_endless,
}
use bunatv.DataStream.Channel.{DataStreamChannel, Platform}
use bunatv.DataStream.Handle.{IsIdle}
use bunatv.DataStream.Exchange.{Ready, Conversation, IsCarried, Ready-Conversation}
use bunatv.Tests.Encryption.{key, tag_cipher, tag_cipher-Lawful}
use bunatv.Tests.Stream.{zeros, length-zeros}

read_varint-write_varint_example :
    read_varint (write_varint 300 ++ 9 ∷ []) ≡ some (pos 300, length (write_varint 300))
read_varint-write_varint_example = read_varint-write_varint 300 (9 ∷ []) (omega arith)

abbrev two_messages : List (List ℕ)
two_messages = (8 ∷ 1 ∷ []) ∷ (8 ∷ 2 ∷ 3 ∷ []) ∷ []

two_messages-AllSendable : AllSendable two_messages
two_messages-AllSendable = ((omega arith, omega arith), ((omega arith, omega arith), tt))

decode_protobufs-encode_protobufs_example :
    decode_protobufs 3 (encode_protobufs two_messages) ≡ some two_messages
decode_protobufs-encode_protobufs_example =
    decode_protobufs-encode_protobufs two_messages 3 two_messages-AllSendable (omega arith)

decode_protobufs_eight_example :
    decode_protobufs 3 (
      encode_protobufs two_messages
      ++ encode_protobufs ((1 ∷ 2 ∷ 3 ∷ 4 ∷ 5 ∷ 6 ∷ 7 ∷ 8 ∷ []) ∷ two_messages))
    ≡ some
        (two_messages ++ (8 ∷ (1 ∷ 2 ∷ 3 ∷ 4 ∷ 5 ∷ 6 ∷ 7 ∷ 8 ∷ encode_protobufs two_messages)) ∷ [])
decode_protobufs_eight_example =
    decode_protobufs_eight two_messages two_messages (1 ∷ 2 ∷ 3 ∷ 4 ∷ 5 ∷ 6 ∷ 7 ∷ 8 ∷ []) 3
      two_messages-AllSendable refl (omega arith)

abbrev platform : Platform
platform = record {
  cipher = tag_cipher;
  allocate = zeros;
  encode_params = λ data_bytes. 1 ∷ data_bytes;
  params_data = λ plist. elim plist [ [] ↦ none | b ∷ bs ↦ some bs ];
}

abbrev empty_stream : StreamBuffer
empty_stream = new_stream zeros 64 1048576

abbrev other_key : List ℕ
other_key = 1 ∷ take 31 key

abbrev left_layer : EncryptionLayer
left_layer = record {
  state = enabled;
  session_keys = some (record { write_key = key; read_key = other_key });
  send_nonce = 4;
  receive_nonce = 9;
  nonce_format = hap;
}

abbrev right_layer : EncryptionLayer
right_layer = record {
  state = enabled;
  session_keys = some (record { write_key = other_key; read_key = key });
  send_nonce = 9;
  receive_nonce = 4;
  nonce_format = hap;
}

layers-Linked : Linked left_layer right_layer
unfolding active_keys
layers-Linked = record {
  forth = record {
    s_keys = record { write_key = key; read_key = other_key };
    r_keys = record { write_key = other_key; read_key = key };
    s_active = refl;
    r_active = refl;
    same_key = refl;
    key_size = refl;
    same_nonce = refl;
    same_format = refl;
  };
  back = record {
    s_keys = record { write_key = other_key; read_key = key };
    r_keys = record { write_key = key; read_key = other_key };
    s_active = refl;
    r_active = refl;
    same_key = refl;
    key_size = refl;
    same_nonce = refl;
    same_format = refl;
  };
}

abbrev left : DataStreamChannel
left = record {
  encryption = left_layer;
  encrypted_buffer = [];
  stream = empty_stream;
  send_seqno = 2 ^ 32;
}

abbrev right : DataStreamChannel
right = record {
  encryption = right_layer;
  encrypted_buffer = [];
  stream = empty_stream;
  send_seqno = 2 ^ 32;
}

left-IsIdle : IsIdle left
unfolding new_stream
left-IsIdle = record {
  all_decrypted = refl;
  valid = omega arith;
  nothing_unread = unfold contents in refl;
  capacity = refl;
}

right-IsIdle : IsIdle right
unfolding new_stream
right-IsIdle = record {
  all_decrypted = refl;
  valid = omega arith;
  nothing_unread = unfold contents in refl;
  capacity = refl;
}

both-Ready : Ready left right
both-Ready = record { linked = layers-Linked; a_idle = left-IsIdle; b_idle = right-IsIdle }

short-IsCarried : IsCarried platform (8 ∷ 1 ∷ [])
short-IsCarried = record {
  sendable = ((omega arith, omega arith), tt);
  same_params = refl;
  nonempty = omega arith;
  fits = unfold encode_protobufs write_varint write_rounds in omega arith;
}

long-IsCarried : IsCarried platform (8 ∷ 2 ∷ 3 ∷ [])
long-IsCarried = record {
  sendable = ((omega arith, omega arith), tt);
  same_params = refl;
  nonempty = omega arith;
  fits = unfold encode_protobufs write_varint write_rounds in omega arith;
}

Ready-Conversation_example :
    (a : DataStreamChannel) × (b : DataStreamChannel) × Conversation platform left right
      two_messages a b
    × Ready a b
    × (a.send_seqno ≡ 2 ^ 32 + 2)
Ready-Conversation_example =
    Ready-Conversation platform tag_cipher-Lawful length-zeros two_messages left right both-Ready
      (short-IsCarried, (long-IsCarried, tt)) (omega arith)

decode_protobufs_endless_example :
    decode_protobufs 5 (0xfb ∷ 0xff ∷ 0xff ∷ 0xff ∷ 0x0f ∷ 1 ∷ []) ≡ none
decode_protobufs_endless_example = decode_protobufs_endless 5 (1 ∷ [])
