-- ===== src/Opack/Refines.antt =====
-- `OPACK.encode` on the pool of core/encoding/opack.ts packs what packing without the pool does.
use bunatv.Prelude.{
  ℕ, ◌≤◌, ◌≡◌, refl, ap, ◌∙◌, sym, List, [], ◌∷◌, ◌++◌, arith, ok, true, false, length,
  length-append, append_assoc, append-nil,
}
use bunatv.Buffers.Writer.{BufferWriter, to_buffer}
use bunatv.Buffers.Pool.{BufferPool}
use bunatv.Buffers.Pool.Sound.{IsSound}
use bunatv.Buffers.Pool.Growth.{IsRegular}
use bunatv.Opack.Value.{
  Value, null, boolean, number, negative, bigint, negative_bigint, double, str, buffer, arr, dict,
  Items, nil, cons, Fields, end, field, count_items, count_fields,
}
use bunatv.Opack.Pack
use bunatv.Opack.Pack.{Packed, check_and_reuse, enclose, pack_bytes}
use bunatv.Opack.Pooled.{pack_value, pack_items, pack_fields, encode}
use bunatv.Opack.Texts.{Regular, Texts-pack_integer}
use bunatv.Opack.Pooling.{
  packed_size, packed_size_items, packed_size_fields, IsSmall, IsSmallItems, IsSmallFields, Pools,
  PoolsGroup, Pools-pack_key, Pools-pack_buffer, length-enclose, appended, Opened-open_group,
  Finished-finish,
}

module _ (allocate : ℕ → List ℕ) (allocate_length : (n : ℕ) → length (allocate n) ≡ n) where
  appended_twice :
      (w₀ w₁ w₂ w₃ key value body : List ℕ)
      → w₁ ≡ w₀ ++ key
      → w₂ ≡ w₁ ++ value
      → w₃ ≡ w₂ ++ body
      → w₃ ≡ w₀ ++ (key ++ (value ++ body))
  appended_twice w₀ w₁ w₂ w₃ key value body e f g =
      g
      ∙ ap (λ front. front ++ body) f
      ∙ append_assoc w₁ value body
      ∙ ap (λ front. front ++ (value ++ body)) e
      ∙ append_assoc w₀ key (value ++ body)

  mutual
    unfolding Pack.pack_value pack_value packed_size

    Pools-pack_value :
        (v : Value) (objects : List (List ℕ)) (pool : BufferPool)
        → IsSmall v
        → IsSound pool
        → Pools (packed_size v) (Pack.pack_value v objects) (pack_value allocate v objects pool)
    Pools-pack_value null objects pool h sound = record {
      packed = 0x04 ∷ [];
      objects = objects;
      pool' = pool;
      plain_ok = refl;
      pooled_ok = refl;
      sound = sound;
      short = omega arith;
    }
    Pools-pack_value (boolean true) objects pool h sound = record {
      packed = 0x01 ∷ [];
      objects = objects;
      pool' = pool;
      plain_ok = refl;
      pooled_ok = refl;
      sound = sound;
      short = omega arith;
    }
    Pools-pack_value (boolean false) objects pool h sound = record {
      packed = 0x02 ∷ [];
      objects = objects;
      pool' = pool;
      plain_ok = refl;
      pooled_ok = refl;
      sound = sound;
      short = omega arith;
    }
    Pools-pack_value (number n) objects pool h sound =
        let t = Texts-pack_integer allocate allocate_length n pool h sound in
        record {
          packed = t.packed;
          objects = objects;
          pool' = t.pool';
          plain_ok = rw (t.plain_ok) refl;
          pooled_ok = rw (t.pooled_ok) refl;
          sound = t.sound;
          short = t.short;
        }
    Pools-pack_value (str s) objects pool h sound =
        Pools-pack_key allocate allocate_length s objects pool h sound
    Pools-pack_value (buffer data_bytes) objects pool h sound =
        Pools-pack_buffer allocate allocate_length data_bytes objects pool h sound
    Pools-pack_value (arr xs) objects pool h sound =
        let o = Opened-open_group allocate allocate_length 0xd0 (count_items xs) pool sound in
        let g = Pools-pack_items xs objects o.writer o.pool' h o.is_regular o.sound in
        let f =
          Finished-finish allocate allocate_length 0xd0 (count_items xs) g.body g.writer g.pool'
            (g.shown ∙ ap (λ front. front ++ g.body) o.shown) g.is_regular g.sound in
        record {
          packed = enclose 0xd0 (count_items xs) g.body;
          objects = g.objects;
          pool' = f.pool';
          plain_ok = rw (g.plain_ok) refl;
          pooled_ok = rw (o.is_ok, g.pooled_ok, f.is_ok) refl;
          sound = f.sound;
          short = omega (arith, g.short, length-enclose 0xd0 (count_items xs) g.body);
        }
    Pools-pack_value (dict fs) objects pool h sound =
        let o = Opened-open_group allocate allocate_length 0xe0 (count_fields fs) pool sound in
        let g = Pools-pack_fields fs objects o.writer o.pool' h o.is_regular o.sound in
        let f =
          Finished-finish allocate allocate_length 0xe0 (count_fields fs) g.body g.writer g.pool'
            (g.shown ∙ ap (λ front. front ++ g.body) o.shown) g.is_regular g.sound in
        record {
          packed = enclose 0xe0 (count_fields fs) g.body;
          objects = g.objects;
          pool' = f.pool';
          plain_ok = rw (g.plain_ok) refl;
          pooled_ok = rw (o.is_ok, g.pooled_ok, f.is_ok) refl;
          sound = f.sound;
          short = omega (arith, g.short, length-enclose 0xe0 (count_fields fs) g.body);
        }
    Pools-pack_value (negative n) objects pool h sound = absurd h
    Pools-pack_value (bigint n) objects pool h sound = absurd h
    Pools-pack_value (negative_bigint n) objects pool h sound = absurd h
    Pools-pack_value (double bits) objects pool h sound = absurd h

    Pools-pack_items :
        (xs : Items) (objects : List (List ℕ)) (w : BufferWriter) (pool : BufferPool)
        → IsSmallItems xs
        → IsRegular Regular w
        → IsSound pool
        → PoolsGroup
            (packed_size_items xs)
            w
            (Pack.pack_items xs objects)
            (pack_items allocate xs objects w pool)
    Pools-pack_items nil objects w pool h v sound = record {
      body = [];
      objects = objects;
      writer = w;
      pool' = pool;
      plain_ok = refl;
      pooled_ok = refl;
      shown = sym (append-nil (to_buffer w));
      is_regular = v;
      sound = sound;
      short = omega arith;
    }
    Pools-pack_items (cons x xs) objects w pool (low, h, hs) v sound =
        let p = Pools-pack_value x objects pool h sound in
        let a =
          appended allocate allocate_length p.packed w p.pool' (omega (arith, p.short, low)) v
            p.sound in
        let g = Pools-pack_items xs p.objects a.writer a.pool' hs a.is_regular a.sound in
        record {
          body = p.packed ++ g.body;
          objects = g.objects;
          writer = g.writer;
          pool' = g.pool';
          plain_ok = rw (p.plain_ok, g.plain_ok) refl;
          pooled_ok = rw (p.pooled_ok, a.is_ok, g.pooled_ok) refl;
          shown =
              g.shown
              ∙ ap (λ front. front ++ g.body) a.shown
              ∙ append_assoc (to_buffer w) p.packed g.body;
          is_regular = g.is_regular;
          sound = g.sound;
          short = omega (arith, p.short, g.short, length-append p.packed g.body);
        }

    Pools-pack_fields :
        (fs : Fields) (objects : List (List ℕ)) (w : BufferWriter) (pool : BufferPool)
        → IsSmallFields fs
        → IsRegular Regular w
        → IsSound pool
        → PoolsGroup
            (packed_size_fields fs)
            w
            (Pack.pack_fields fs objects)
            (pack_fields allocate fs objects w pool)
    Pools-pack_fields end objects w pool h v sound = record {
      body = [];
      objects = objects;
      writer = w;
      pool' = pool;
      plain_ok = refl;
      pooled_ok = refl;
      shown = sym (append-nil (to_buffer w));
      is_regular = v;
      sound = sound;
      short = omega arith;
    }
    Pools-pack_fields (field k v fs) objects w pool (low_k, low, h, hs) valid sound =
        let key =
          Pools-pack_key allocate allocate_length k objects pool (omega (arith, low_k)) sound in
        let p = Pools-pack_value v key.objects key.pool' h key.sound in
        let a =
          appended allocate allocate_length key.packed w p.pool' (omega (arith, key.short, low_k))
            valid p.sound in
        let b =
          appended allocate allocate_length p.packed a.writer a.pool' (omega (arith, p.short, low))
            a.is_regular a.sound in
        let g = Pools-pack_fields fs p.objects b.writer b.pool' hs b.is_regular b.sound in
        record {
          body = key.packed ++ (p.packed ++ g.body);
          objects = g.objects;
          writer = g.writer;
          pool' = g.pool';
          plain_ok = rw (key.plain_ok, p.plain_ok, g.plain_ok) refl;
          pooled_ok = rw (key.pooled_ok, p.pooled_ok, a.is_ok, b.is_ok, g.pooled_ok) refl;
          shown =
              appended_twice (to_buffer w) (to_buffer a.writer) (to_buffer b.writer)
                (to_buffer g.writer) key.packed p.packed g.body a.shown b.shown g.shown;
          is_regular = g.is_regular;
          sound = g.sound;
          short = omega (
            arith,
            key.short,
            p.short,
            g.short,
            length-append key.packed (p.packed ++ g.body),
            length-append p.packed g.body,
          );
        }

  -- On a sound pool encode packs a small value to the bytes of the packing without a pool, and leaves a
  -- sound pool.
  pub encode-Pack_encode :
      (v : Value) (pool : BufferPool)
      → IsSmall v
      → IsSound pool
      → (packed : List ℕ) × (pool' : BufferPool) × (Pack.encode v ≡ ok packed)
        × (encode allocate v pool ≡ ok (packed, pool'))
        × IsSound pool'
        × (length packed ≤ packed_size v)
  unfolding Pack.encode encode
  encode-Pack_encode v pool h sound =
      let p = Pools-pack_value v [] pool h sound in
      (p.packed, p.pool', rw (p.plain_ok) refl, rw (p.pooled_ok) refl, p.sound, p.short)
