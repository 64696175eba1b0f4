-- ===== src/Raop/Fifo/Backlog.antt =====
-- The contents of `PacketFifo`, protocols/raop/packets/PacketFifo.ts.
use bunatv.Prelude.{
  ℕ, zero, suc, ◌-◌, ◌≤◌, ◌≡◌, refl, sym, subst, ap, ◌∙◌, List, [], ◌∷◌, ◌++◌, arith, none, some,
  ltb, length, length-append, length-drop, drop, drop-drop, drop-append_le, append_assoc,
  Bool-cases, Option-cases, append-nil, inl, inr, ltb→lt, ltb→ge, ==_refl, ◌≢◌,
}
use bunatv.Prelude.Map.{number_key, get, put, delete}
use bunatv.Raop.Fifo.{PacketFifo, new_fifo, set, has, is_some, evict}

-- Sequence numbers with their packets.
abbrev pub Packets : Type 0
Packets = List (ℕ × List ℕ)

unfoldable pub numbers : Packets → List ℕ
numbers [] = []
numbers ((k, p) ∷ m) = k ∷ numbers m

abbrev pub Distinct : Packets → Type 0
Distinct [] = Unit
Distinct ((k, p) ∷ m) = (get k m ≡ none) × Distinct m

-- Each packet's number is new, after those before it.
abbrev pub AllNew : Packets → Packets → Type 0
AllNew m [] = Unit
AllNew m ((k, p) ∷ ps) = (get k m ≡ none) × AllNew (m ++ (k, p) ∷ []) ps

pub record IsValid (fifo : PacketFifo) : Type 0 where
  pub in_order : fifo.order ≡ numbers fifo.packets
  pub distinct : Distinct fifo.packets
  pub bounded : length fifo.packets ≤ fifo.max_size

put_new : (k : ℕ) (p : List ℕ) (m : Packets) → get k m ≡ none → put k p m ≡ m ++ (k, p) ∷ []
unfolding get put
put_new k p [] e = refl
put_new k p ((j, q) ∷ m) e = ground (arith, put_new k p m)

delete_absent : (k : ℕ) (m : Packets) → get k m ≡ none → delete k m ≡ m
unfolding get delete
delete_absent k [] e = refl
delete_absent k ((j, q) ∷ m) e = ground (arith, delete_absent k m)

numbers-append :
    (m : Packets) (k : ℕ) (p : List ℕ) → numbers (m ++ (k, p) ∷ []) ≡ numbers m ++ k ∷ []
unfolding numbers
numbers-append [] k p = refl
numbers-append ((j, q) ∷ m) k p = ap (λ l. j ∷ l) (numbers-append m k p)

length-numbers : (m : Packets) → length (numbers m) ≡ length m
unfolding numbers
length-numbers [] = refl
length-numbers ((j, q) ∷ m) = ap suc (length-numbers m)

get-tail : (k j : ℕ) (q : List ℕ) (m : Packets) → get k ((j, q) ∷ m) ≡ none → get k m ≡ none
unfolding get
get-tail k j q m e = ground arith

get-head : (k j : ℕ) (q : List ℕ) (m : Packets) → get k ((j, q) ∷ m) ≡ none → j ≢ k
unfolding get
get-head k j q m e = ground arith

get-append_other :
    (j k : ℕ) (p : List ℕ) (m : Packets) → get j m ≡ none → j ≢ k → get j (m ++ (k, p) ∷ []) ≡ none
unfolding get
get-append_other j k p [] e other = ground (arith)
get-append_other j k p ((i, q) ∷ m) e other =
    ground (arith, get-append_other j k p m (get-tail j i q m e) other)

get-drop : (k n : ℕ) (m : Packets) → get k m ≡ none → get k (drop n m) ≡ none
get-drop k zero m e = e
get-drop k (suc n) [] e = e
get-drop k (suc n) ((j, q) ∷ m) e = get-drop k n m (get-tail k j q m e)

Distinct-drop : (n : ℕ) (m : Packets) → Distinct m → Distinct (drop n m)
Distinct-drop zero m d = d
Distinct-drop (suc n) [] d = d
Distinct-drop (suc n) ((j, q) ∷ m) (e, d) = Distinct-drop n m d

Distinct-append :
    (m : Packets) (k : ℕ) (p : List ℕ) → Distinct m → get k m ≡ none → Distinct (m ++ (k, p) ∷ [])
Distinct-append [] k p d e = (unfold get in refl, tt)
Distinct-append ((j, q) ∷ m) k p (f, d) e =
    (get-append_other j k p m f (get-head k j q m e), Distinct-append m k p d (get-tail k j q m e))

delete_first : (k : ℕ) (p : List ℕ) (m : Packets) → get k m ≡ none → delete k ((k, p) ∷ m) ≡ m
unfolding delete
delete_first k p m e = rw (==_refl k, delete_absent k m e)

-- The buffer that holds given packets.
abbrev pub holds : ℕ → Packets → PacketFifo
holds max_size m = record { max_size = max_size; packets = m; order = numbers m }

-- The packets set last, `max_size` at most.
abbrev pub last_packets : ℕ → Packets → Packets
last_packets max_size m = drop (length m - max_size) m

evict_lem :
    (m : Packets) (max_size : ℕ)
    → Distinct m
    → evict (numbers m) max_size m ≡ holds max_size (last_packets max_size m)
unfolding evict numbers
evict_lem [] max_size d = ap (λ n. holds max_size (drop n [])) {x = 0} (omega arith)
evict_lem ((k, p) ∷ m) max_size (e, d) = elim (Bool-cases (ltb max_size (length (k ∷ numbers m)))) [
  | inl over ↦
      rw (over, delete_first k p m e, evict)
        (evict_lem m max_size d
          ∙ ap (λ n. holds max_size (drop n ((k, p) ∷ m))) {x = suc (length m - max_size)}
              (omega (arith, ltb→lt max_size (length (k ∷ numbers m)) over, length-numbers m)))
  | inr fits ↦
      rw (fits, evict)
        (ap (λ n. holds max_size (drop n ((k, p) ∷ m))) {x = 0}
          (omega (arith, ltb→ge max_size (length (k ∷ numbers m)) fits, length-numbers m)))
]

-- On a valid buffer, a packet with a new number is put behind the others, and of all those the last
-- ones stay.
set_new :
    (k : ℕ) (p : List ℕ) (fifo : PacketFifo)
    → IsValid fifo
    → get k fifo.packets ≡ none
    → set k p fifo ≡ holds fifo.max_size (last_packets fifo.max_size (fifo.packets ++ (k, p) ∷ []))
unfolding set has is_some
set_new k p fifo h e =
    rw (e, put_new k p fifo.packets e, h.in_order, sym (numbers-append fifo.packets k p))
      (evict_lem (fifo.packets ++ (k, p) ∷ []) fifo.max_size
        (Distinct-append fifo.packets k p h.distinct e))

holds-IsValid :
    (max_size : ℕ) (m : Packets) → Distinct m → IsValid (holds max_size (last_packets max_size m))
holds-IsValid max_size m d = record {
  in_order = refl;
  distinct = Distinct-drop (length m - max_size) m d;
  bounded = omega (arith, length-drop (length m - max_size) m);
}

set_old :
    (k : ℕ) (p q : List ℕ) (fifo : PacketFifo) → get k fifo.packets ≡ some q → set k p fifo ≡ fifo
unfolding set has is_some
set_old k p q fifo e = rw e

-- `set` keeps a buffer valid, with any number: the order names the packets one by one, no number
-- occurs twice, and no more than `max_size` packets are held.
pub set-IsValid : (k : ℕ) (p : List ℕ) (fifo : PacketFifo) → IsValid fifo → IsValid (set k p fifo)
set-IsValid k p fifo h = elim (Option-cases (get k fifo.packets)) [
  | inl new ↦ subst IsValid (sym (set_new k p fifo h new)) (
      holds-IsValid fifo.max_size (fifo.packets ++ (k, p) ∷ [])
        (Distinct-append fifo.packets k p h.distinct new))
  | inr (q, old) ↦ subst IsValid (sym (set_old k p q fifo old)) h
]

last-append :
    (max_size : ℕ) (m : Packets) (k : ℕ) (p : List ℕ)
    → last_packets max_size (last_packets max_size m ++ (k, p) ∷ [])
      ≡ last_packets max_size (m ++ (k, p) ∷ [])
last-append max_size m k p =
    let a = length m - max_size in
    let x : Packets = (k, p) ∷ [] in
    let front = drop a m ++ x in
    ap (drop (length front - max_size)) (sym (drop-append_le a m x (omega arith)))
    ∙ drop-drop (length front - max_size) a (length (m ++ x) - max_size) (m ++ x)
        (omega (arith, length-append m x, length-append (drop a m) x, length-drop a m))

-- `set` for one packet after the other.
unfoldable pub set_all : Packets → PacketFifo → PacketFifo
set_all [] fifo = fifo
set_all ((k, p) ∷ ps) fifo = set_all ps (set k p fifo)

set_all_from :
    (max_size : ℕ) (m ps : Packets)
    → Distinct m
    → AllNew m ps
    → set_all ps (holds max_size (last_packets max_size m))
      ≡ holds max_size (last_packets max_size (m ++ ps))
unfolding set_all
set_all_from max_size m [] d new =
    ap (λ l. holds max_size (last_packets max_size l)) (sym (append-nil m))
set_all_from max_size m ((k, p) ∷ ps) d (e, new) =
    ap (set_all ps) (
      set_new k p (holds max_size (last_packets max_size m)) (holds-IsValid max_size m d)
        (get-drop k (length m - max_size) m e)
      ∙ ap (holds max_size) (last-append max_size m k p))
    ∙ set_all_from max_size (m ++ (k, p) ∷ []) ps (Distinct-append m k p d e) new
    ∙ ap (λ l. holds max_size (last_packets max_size l)) (append_assoc m ((k, p) ∷ []) ps)

-- After packets with different numbers have been set in a new buffer, it holds the last `max_size` of
-- them, in their order.
pub set_all_lem :
    (max_size : ℕ) (ps : Packets)
    → AllNew [] ps
    → set_all ps (new_fifo max_size) ≡ holds max_size (last_packets max_size ps)
unfolding new_fifo numbers
set_all_lem max_size ps new =
    ap (set_all ps) (ap (λ n. holds max_size (drop n [])) {x = 0} (omega arith))
    ∙ set_all_from max_size [] ps tt new
