-- ===== src/Raop/Fifo.antt =====
-- `PacketFifo`, protocols/raop/packets/PacketFifo.ts: the packets sent last, by sequence number.
use bunatv.Prelude.{
  ℕ, zero, suc, ◌+◌, ◌-◌, ◌*◌, ◌<◌, ◌≤◌, ◌≡◌, refl, sym, ap, ap₂, ◌∙◌, List, [], ◌∷◌, ◌++◌, map,
  arith, Option, none, some, Bool, true, false, ltb, if◌then◌else◌, length, length-append, drop,
  Bool-cases, inl, inr, ◌⊎◌, le→ltb, lt→ltb,
}
use bunatv.Prelude.Map.{Key, number_key, get, put, delete}
pub mod Backlog

pub record PacketFifo : Type 0 where
  pub max_size : ℕ
  pub packets : List (ℕ × List ℕ)
  pub order : List ℕ

unfoldable pub new_fifo : ℕ → PacketFifo
new_fifo max_size = record { max_size = max_size; packets = []; order = [] }

unfoldable pub get_packet : ℕ → PacketFifo → Option (List ℕ)
get_packet seqno fifo = get seqno fifo.packets

unfoldable pub is_some : Option (List ℕ) → Bool
is_some none = false
is_some (some packet) = true

unfoldable pub has : ℕ → PacketFifo → Bool
has seqno fifo = is_some (get seqno fifo.packets)

-- The loop of `set`: each pass takes the oldest number off the order.
unfoldable pub evict : List ℕ → ℕ → List (ℕ × List ℕ) → PacketFifo
evict [] max_size packets = record { max_size = max_size; packets = packets; order = [] }
evict (oldest ∷ order) max_size packets =
    let rest = evict order max_size (delete oldest packets) in
    if ltb max_size (length (oldest ∷ order))
    then rest
    else record { max_size = max_size; packets = packets; order = oldest ∷ order }

unfoldable pub set : ℕ → List ℕ → PacketFifo → PacketFifo
unfolding has
set seqno packet fifo =
    if has seqno fifo
    then fifo
    else evict (fifo.order ++ seqno ∷ []) fifo.max_size (put seqno packet fifo.packets)

unfoldable pub fifo_size : PacketFifo → ℕ
fifo_size fifo = length fifo.packets

unfoldable pub clear_fifo : PacketFifo → PacketFifo
clear_fifo fifo = record { max_size = fifo.max_size; packets = []; order = [] }
