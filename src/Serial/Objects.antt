-- ===== src/Serial/Objects.antt =====
-- Objects through the stream: the ids of the serializer and those of the deserializer.
use crack.Prelude.{
  ℕ, ◌+◌, ◌*◌, ◌/◌, ◌%◌, ◌^◌, ◌<◌, ◌==◌, ◌≡◌, refl, Bool, true, false, Bytes, ◌∷◌, ◌++◌,
  append_assoc, Option, some, none, arith, if◌then◌else◌,
}
use crack.Serial.Reader.{Deserializer, Read, got, read_object, find_object, resolve}
use crack.Serial.Varint.{encoding, wrote, took, write_uint-wrote, read_uint-took}
use crack.Serial.Writer.{
  Serializer, write_as, write_object, put_bytes, find_id, add_object, uint_mod,
}

-- The caller's part: an object that is new is followed by its state.
unfoldable pub write_whole : Serializer → ℕ → Bytes → Serializer × Bool
unfolding write_object put_bytes
write_whole s object state =
    let (s', new) = write_object s object in (if new then put_bytes s' state else s', new)

-- Every object with an id on the one side is found under that id on the other.
pub record IsRelated (s : Serializer) (d : Deserializer) : Type 0 where
  pub known :
      (object id : ℕ)
      → find_id object s.obj_map.ids ≡ some id
      → (find_object id d.obj_map ≡ some object) × (id < s.obj_map.last_id)

pub record Exchanged (s : Serializer) (d : Deserializer) (object : ℕ) (state rest : Bytes)
    (reader : Deserializer → Read ℕ) : Type 0 where
  pub bs : Bytes
  pub new : Bool
  pub s' : Serializer
  pub d' : Deserializer
  pub writes : write_whole s object state ≡ (s', new)
  pub appends : s'.dst ≡ s.dst ++ bs
  pub reads : read_object reader (record d { src = bs ++ rest }) ≡ got (object, new) d'
  pub left_is : d'.src ≡ rest
  pub related : IsRelated s' d'

known_added :
    (s : Serializer) (d : Deserializer) (object o id : ℕ)
    → IsRelated s d
    → find_id o ((object, s.obj_map.last_id) ∷ s.obj_map.ids) ≡ some id
    → (find_object id ((s.obj_map.last_id, object) ∷ d.obj_map) ≡ some o)
      × (id < s.obj_map.last_id + 1)
unfolding find_id find_object
known_added s d object o id r e = ground (arith, r.known o id)

module _ (s : Serializer) (d : Deserializer) (object : ℕ) (state rest : Bytes)
    (reader : Deserializer → Read ℕ) (related : IsRelated s d) (room : s.obj_map.last_id < 2 ^ 30)
    (live : d.eof ≡ false)
    (reads : (z : Deserializer)
      → z.eof ≡ false
      → z.src ≡ state ++ rest
      → reader z ≡ got object (took z state rest)) where
  exchange_new : find_id object s.obj_map.ids ≡ none → Exchanged s d object state rest reader
  unfolding write_whole write_object write_as put_bytes add_object read_object
  exchange_new e =
      let id = s.obj_map.last_id in
      let k = id * 2 + 1 in
      let t = encoding k in
      let fits : k % uint_mod ≡ k = omega arith in
      let odd : (k % 2 == 1) ≡ true = ground arith in
      let half : k / 2 ≡ id = omega arith in
      let d1 : Deserializer = took d t (state ++ rest) in
      let put = write_uint-wrote (add_object s object) k (omega arith) in
      let z : Deserializer = record d { src = (t ++ state) ++ rest } in
      record {
        bs = t ++ state;
        new = true;
        s' = put_bytes (wrote (add_object s object) t) state;
        d' = record (took d1 state rest) { obj_map = (id, object) ∷ d.obj_map };
        writes = rw (e, write_as) (rw (fits, put) refl);
        appends = append_assoc s.dst t state;
        reads =
            rw (read_uint-took z k (state ++ rest) live (omega arith) (append_assoc t state rest))
              (rw (odd, reads d1 live refl, half) refl);
        left_is = refl;
        related = record { known = λ o i f. known_added s d object o i related f };
      }

  exchange_known :
      (id : ℕ) → find_id object s.obj_map.ids ≡ some id → Exchanged s d object state rest reader
  unfolding write_whole write_object write_as put_bytes read_object resolve
  exchange_known id e =
      let (f, low) = related.known object id e in
      let k = id * 2 in
      let t = encoding k in
      let fits : k % uint_mod ≡ k = omega arith in
      let even : (k % 2 == 1) ≡ false = ground arith in
      let half : k / 2 ≡ id = omega arith in
      let z : Deserializer = record d { src = t ++ rest } in
      record {
        bs = t;
        new = false;
        s' = wrote s t;
        d' = took d t rest;
        writes = rw (e, write_as) (rw (fits, write_uint-wrote s k (omega arith)) refl);
        appends = refl;
        reads =
            rw (read_uint-took z k rest live (omega arith) refl) (rw even (rw half (rw f refl)));
        left_is = refl;
        related = record { known = related.known };
      }

  exchange :
      (o : Option ℕ) → find_id object s.obj_map.ids ≡ o → Exchanged s d object state rest reader
  exchange none e = exchange_new e
  exchange (some id) e = exchange_known id e

  -- A serializer with fewer than 2 to the 30 ids, every object with an id being found under that id
  -- by a deserializer that has not met its stream's end: what is added to the stream for an object,
  -- which is its id, and its state too if it is new, the deserializer reads as the same object, new
  -- or known as it was. This needs a reader of objects that takes exactly the state and gives the
  -- object. Exactly what follows is left, and every object with an id is found again.
  pub read_object-write_whole : Exchanged s d object state rest reader
  read_object-write_whole = exchange (find_id object s.obj_map.ids) refl
