-- ===== src/Tests/Companion.antt =====
-- Runs of HapFramedChannel.ts.
use bunatv.Prelude.{◌≡◌, refl, [], ◌∷◌, arith, false}
use bunatv.Buffers.Stream.{new_stream}
use bunatv.Encryption.{new_layer, companion, is_enabled}
use bunatv.HapFrames.{HapFrameHandler, encrypted_opack}
use bunatv.Opack.Value.{number}
use bunatv.Opack.Unpack
use bunatv.Buffers.Reader
use bunatv.Prelude.Bytes.{of_be}
use bunatv.Companion.{message, frame, HapFramedChannel, on_frame}
use bunatv.Companion.Cleartext.{on_frame-cleartext}
use bunatv.Tests.Encryption.{tag_cipher, sender, receiver}
use bunatv.Tests.Opack.{plain_runtime}
use bunatv.Tests.Stream.{zeros}

abbrev handler : HapFrameHandler
handler = record {
  stream = new_stream zeros 512 65536;
  sequence_number = 3;
  validate_frames = false;
}

abbrev left : HapFramedChannel
left = record { encryption = sender; frame_handler = handler }

abbrev right : HapFramedChannel
right = record { encryption = receiver; frame_handler = handler }

on_frame-cleartext_example :
    on_frame tag_cipher plain_runtime
      (record { type = encrypted_opack; sequence = 0; payload = 0x09 ∷ [] })
      (new_layer companion)
    ≡ (
      new_layer companion,
      message (number 1)
          ∷ frame (record { type = encrypted_opack; sequence = 0; payload = 0x09 ∷ [] })
          ∷ [],
    )
unfolding new_layer is_enabled
on_frame-cleartext_example =
    on_frame-cleartext tag_cipher plain_runtime 0 (0x09 ∷ []) (number 1) (new_layer companion) refl
      (omega arith)
      (unfold Unpack.decode Unpack.unpack_value Unpack.unpack_atom Unpack.unpack_simple
          Unpack.unpack_number Reader.reader Reader.read_uint_be Reader.has_more of_be in
        refl)
