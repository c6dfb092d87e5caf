-- ===== src/Reader/Alias.antt =====
-- `nextMessages` on the messages of one segment, and the objects that they share.
use cardano_go.Common.{
  All, Bytes, List, Result, [], ap, append-nil, append_assoc, arith, false, if◌then◌else◌, length,
  length-append, ok, refl, some, suc, take-append-sub, true, zero, ℕ, ◌%◌, ◌&&◌, ◌++◌, ◌+◌, ◌<◌,
  ◌==◌, ◌^◌, ◌∙◌, ◌∷◌, ◌≡◌, ◌≤◌,
}
use cardano_go.Protocol.{Protocol, Subprotocol}
use cardano_go.Reader.Defs.{
  Message, shared, Store, store_set, raw_of, Reader, Item, uint, Cbor, is_start_batch, ReadError,
}
use cardano_go.Reader.Messages.{
  next_message, next_messages, next_messages_from, known, take_message,
}

-- A message on the wire: the subprotocol in its array, the rest of the array, and its bytes.
pub record Encoded : Type 0 where
  pub sub : Subprotocol
  pub items : List Item
  pub bytes : Bytes

-- The decoder reads it off the front of any input, knows its numbers, and can fill its object. It
-- does not start a batch.
pub record Decodes (cbor : Cbor) (p : Protocol) (e : Encoded) : Type 0 where
  pub first :
      (rest : Bytes) → cbor.unmarshal_first (e.bytes ++ rest) ≡ some (uint e.sub ∷ e.items, rest)
  pub in_range : e.sub < 2 ^ 16
  pub is_known : known p e.sub ≡ ok tt
  pub fills : cbor.unmarshal p e.sub e.bytes ≡ true
  pub no_batch : is_start_batch (shared p e.sub) ≡ false
  pub not_empty : 0 < length e.bytes

abbrev pub wire : List Encoded → Bytes
wire [] = []
wire (e ∷ es) = e.bytes ++ wire es

-- The objects after the messages, one after the other, were written to them.
abbrev pub fill : Protocol → Store → List Encoded → Store
fill p st [] = st
fill p st (e ∷ es) = fill p (store_set st p e.sub e.bytes) es

abbrev pub pointers : Protocol → List Encoded → List Message
pointers p [] = []
pointers p (e ∷ es) = shared p e.sub ∷ pointers p es

module _ (cbor : Cbor) where
  next_message-Decodes :
      (r : Reader) (e : Encoded) (rest : Bytes)
      → Decodes cbor r.protocol e
      → next_message cbor r (e.bytes ++ rest) ≡ ok (e.sub, e.bytes, rest)
  unfolding next_message
  next_message-Decodes r e rest h =
      let m : e.sub % 2 ^ 16 ≡ e.sub = omega (arith, h.in_range) in
      rw (h.first rest, m, h.is_known, take-append-sub e.bytes rest, h.fills) refl

  take_message-Decodes :
      (r : Reader) (e : Encoded)
      → Decodes cbor r.protocol e
      → take_message r e.sub e.bytes
        ≡ record r { store = store_set r.store r.protocol e.sub e.bytes }
  unfolding take_message
  take_message-Decodes r e h = rw h.no_batch refl

  next_messages_from-step :
      (fuel : ℕ) (r r' : Reader) (d read left : Bytes) (s : Subprotocol) (ms : List Message)
      (rem : Bytes)
      → 0 < length d
      → next_message cbor r d ≡ ok (s, read, left)
      → take_message r s read ≡ r'
      → r'.batching ≡ false
      → next_messages_from cbor (suc fuel) r d ms rem
        ≡ next_messages_from cbor fuel r' left (ms ++ shared r.protocol s ∷ []) left
  unfolding next_messages_from
  next_messages_from-step fuel r r' [] read left s ms rem l e t b = absurd (omega arith)
  next_messages_from-step fuel r r' (x ∷ d) read left s ms rem l e t b = ground (arith, e, t, b)

  abbrev done_with :
      Reader → List Encoded → List Message → Reader × Result ReadError (List Message × Bytes)
  done_with r es l = (record r { store = fill r.protocol r.store es }, ok (l, []))

  next_messages_from-wire :
      (fuel : ℕ) (r : Reader) (es : List Encoded) (ms : List Message) (rem : Bytes)
      → All (Decodes cbor r.protocol) es
      → r.batching ≡ false
      → length (wire es) ≤ fuel
      → (es ≡ [] → rem ≡ [])
      → next_messages_from cbor fuel r (wire es) ms rem
        ≡ (record r { store = fill r.protocol r.store es }, ok (ms ++ pointers r.protocol es, []))
  unfolding next_messages_from
  next_messages_from-wire fuel r [] ms rem h b f e = rw (e refl, append-nil ms) refl
  next_messages_from-wire zero r (m ∷ es) ms rem h b f e =
      absurd (omega (arith, h.0.not_empty, length-append m.bytes (wire es)))
  next_messages_from-wire (suc fuel) r (m ∷ es) ms rem h b f e =
      let len : length (m.bytes ++ wire es) ≡ length m.bytes + length (wire es) =
        length-append m.bytes (wire es) in
      let pos : 0 < length m.bytes = h.0.not_empty in
      let r' : Reader = record r { store = store_set r.store r.protocol m.sub m.bytes } in
      next_messages_from-step fuel r r' (m.bytes ++ wire es) m.bytes (wire es) m.sub ms rem
        (omega arith) (next_message-Decodes r m (wire es) h.0) (take_message-Decodes r m h.0) b
      ∙ next_messages_from-wire fuel r' es (ms ++ shared r.protocol m.sub ∷ []) (wire es) h.1 b
          (omega arith) (λ n. rw n refl)
      ∙ ap (done_with r' es)
          (append_assoc ms (shared r.protocol m.sub ∷ []) (pointers r.protocol es))

  -- The messages of one segment come out in order, each as a pointer to the object of its numbers.
  pub next_messages-wire :
      (r : Reader) (es : List Encoded)
      → All (Decodes cbor r.protocol) es
      → r.batching ≡ false
      → next_messages cbor r (wire es)
        ≡ (record r { store = fill r.protocol r.store es }, ok (pointers r.protocol es, []))
  unfolding next_messages
  next_messages-wire r es h b =
      next_messages_from-wire (length (wire es)) r es [] [] h b (omega arith) (λ n. refl)

-- What every pointer to a subprotocol shows: the message of that subprotocol that was read last.
abbrev pub last_bytes : Subprotocol → Bytes → List Encoded → Bytes
last_bytes s d [] = d
last_bytes s d (e ∷ es) = last_bytes s (if e.sub == s then e.bytes else d) es

fill-last :
    (p : Protocol) (s : Subprotocol) (st : Store) (es : List Encoded)
    → fill p st es p s ≡ last_bytes s (st p s) es
fill-last p s st [] = refl
fill-last p s st (e ∷ es) =
    fill-last p s (store_set st p e.sub e.bytes) es
    ∙ ap (λ (d : Bytes). last_bytes s d es) (seen_here p)
  where
    seen_here :
        (p' : ℕ)
        → (if p' == p' && e.sub == s then e.bytes else st p' s)
          ≡ (if e.sub == s then e.bytes else st p' s)
    seen_here p' = ground arith

-- The messages of one segment come out in order, but every pointer to a subprotocol shows the
-- bytes of the message of that subprotocol that was read last: the contents of the earlier ones are
-- gone when `nextMessages` returns.
pub next_messages-last :
    (cbor : Cbor) (r : Reader) (es : List Encoded) (s : Subprotocol)
    → All (Decodes cbor r.protocol) es
    → r.batching ≡ false
    → ((next_messages cbor r (wire es)).1 ≡ ok (pointers r.protocol es, []))
      × (raw_of (next_messages cbor r (wire es)).0.store (shared r.protocol s)
          ≡ last_bytes s (raw_of r.store (shared r.protocol s)) es)
next_messages-last cbor r es s h b =
    rw (next_messages-wire cbor r es h b) (refl, fill-last r.protocol s r.store es)
