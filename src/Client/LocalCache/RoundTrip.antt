-- ===== src/Client/LocalCache/RoundTrip.antt =====
-- internal/client/vault/localcache.go: what is saved is read back.
use go_yandex_gophkeeper.Base.{
  List, [], ◌∷◌, ℕ, ◌≡◌, Option, none, some, Result, ok, err, lift, refl, bind-eq-ok, bind-ok,
  arith, ap, map, sym, inl, inr, ◌∙◌, Bool-cases,
}
use go_yandex_gophkeeper.Crypto.Keys.{
  CryptoError, Primitives, PrimitiveLaws, encrypt, decrypt-encrypt,
}
use go_yandex_gophkeeper.Client.Tui.Items.{VaultItem}
use go_yandex_gophkeeper.Client.LocalCache.{
  CacheCodec, CacheDisk, Envelope, save, load, marshal_all, unmarshal_all, or_other, drawing,
  enveloped, write_file, parsed, unsealed, read_items, from_crypto, with_first,
}

-- What the codecs write, they read. An array of raw messages is written with every message in another
-- layout (`compact`: without spaces, and with HTML characters escaped), which reads as the same item.
pub record CodecLaws (codec : CacheCodec) : Type 0 where
  pub compact : List ℕ → List ℕ
  pub item_back :
      (i : VaultItem) (b : List ℕ) → codec.item_out i ≡ some b → codec.item_in (compact b) ≡ some i
  pub array_back :
      (bs : List (List ℕ)) (b : List ℕ)
      → codec.array_out bs ≡ some b
      → codec.array_in b ≡ some (map compact bs)
  pub envelope_back :
      (e : Envelope) (b : List ℕ) → codec.envelope_out e ≡ some b → codec.envelope_in b ≡ some e

or_other-eq-ok : {A : Type 0} (o : Option A) {a : A} → or_other o ≡ ok a → o ≡ some a
or_other-eq-ok none h = absurd (cc)
or_other-eq-ok (some b) h = cc

from_crypto-eq-ok :
    {A : Type 0} (r : Result CryptoError A) {a : A} → from_crypto r ≡ ok a → r ≡ ok a
from_crypto-eq-ok (ok b) h = cc
from_crypto-eq-ok (err e) h = absurd (cc)

module _ ⦃codec : CacheCodec⦄ (laws : CodecLaws codec) where
  with_first-some :
      (o : Option (List ℕ)) (rest : Option (List (List ℕ))) {bs : List (List ℕ)}
      → with_first o rest ≡ some bs
      → (b : List ℕ) × (cs : List (List ℕ)) × (o ≡ some b) × (rest ≡ some cs) × (b ∷ cs ≡ bs)
  with_first-some none rest h = absurd (cc)
  with_first-some (some b) none h = absurd (cc)
  with_first-some (some b) (some cs) h = (b, cs, refl, refl, cc)

  marshal_back :
      (items : List VaultItem) {bs : List (List ℕ)}
      → marshal_all items ≡ some bs
      → unmarshal_all (map laws.compact bs) ≡ items
  unfolding marshal_all unmarshal_all
  marshal_back [] {bs = bs} h = let e : [] ≡ bs = cc in rw (← e) refl
  marshal_back (i ∷ is) {bs = bs} h =
      let (b, cs, e, f, g) = with_first-some (codec.item_out i) (marshal_all is) h in
      rw (← g) (rw (laws.item_back i b e) (ap (λ r. i ∷ r) (marshal_back is f)))

  module _ ⦃prim : Primitives⦄ where
    -- What a successful save leaves: the envelope that was written, and the items in it.
    record Written (key : List ℕ) (items : List VaultItem) (d : CacheDisk) : Type 0 where
      raw : List (List ℕ)
      plain : List ℕ
      content : List ℕ
      payload : List ℕ
      marshalled : marshal_all items ≡ some raw
      listed : codec.array_out raw ≡ some plain
      sealed : (encrypt key plain d.draws).0 ≡ ok content
      wrapped :
          codec.envelope_out (record { version = 1; updated_at = d.clock; content = content })
          ≡ some payload
      on_disk : (save key items d).1.file ≡ some payload

    write_file-eq-ok :
        (b : List ℕ) (d : CacheDisk) → (write_file b d).0 ≡ ok tt → (write_file b d).1.file ≡ some b
    write_file-eq-ok b d h = elim (Bool-cases d.full) [
      | inl e ↦ absurd (ground arith)
      | inr e ↦ ground arith
    ]

    save-Written :
        (key : List ℕ) (items : List VaultItem) (d : CacheDisk)
        → (save key items d).0 ≡ ok tt
        → Written key items d
    unfolding save
    save-Written key items d h =
        let (raw, d1, e1, f1) = bind-eq-ok (lift (or_other (marshal_all items))) _ d h in
        let (plain, d2, e2, f2) = bind-eq-ok (lift (or_other (codec.array_out raw))) _ d1 f1 in
        let (content, d3, e3, f3) = bind-eq-ok (drawing (encrypt key plain)) _ d2 f2 in
        let (payload, d4, e4, f4) = bind-eq-ok (enveloped content) write_file d3 f3 in
        let from_d : d2 ≡ d = sym (ap (λ p. p.1) e1 ∙ ap (λ p. p.1) e2) in
        let time : d3.clock ≡ d.clock = sym (ap (λ p. p.1.clock) e3) ∙ ap (λ s. s.clock) from_d in
        let same =
          bind-ok (lift (or_other (marshal_all items))) _ e1
          ∙ bind-ok (lift (or_other (codec.array_out raw))) _ e2
          ∙ bind-ok (drawing (encrypt key plain)) _ e3
          ∙ bind-ok (enveloped content) write_file e4 in
        record {
          raw = raw;
          plain = plain;
          content = content;
          payload = payload;
          marshalled = or_other-eq-ok _ (ap (λ p. p.0) e1);
          listed = or_other-eq-ok _ (ap (λ p. p.0) e2);
          sealed =
              ap (λ s. (encrypt key plain s.draws).0) (sym from_d)
              ∙ from_crypto-eq-ok _ (ap (λ p. p.0) e3);
          wrapped =
              ap
                (λ t.
                  codec.envelope_out (record { version = 1; updated_at = t; content = content }))
                (sym time)
              ∙ or_other-eq-ok _ (ap (λ p. p.0) e4);
          on_disk = ap (λ p. p.1.file) same ∙ write_file-eq-ok payload d4 f4;
        }

    -- Where `Save` succeeds, `Load` with the same key gives back the items that were saved, in their
    -- order, and the time at which they were saved.
    pub load-save_cache :
        (prim_laws : PrimitiveLaws prim) (key : List ℕ) (items : List VaultItem) (d : CacheDisk)
        → (save key items d).0 ≡ ok tt
        → load key (save key items d).1.file ≡ ok (items, d.clock)
    unfolding load
    load-save_cache prim_laws key items d h =
        let written = save-Written key items d h in
        let read : codec.envelope_in written.payload ≡ some _ =
          laws.envelope_back _ written.payload written.wrapped in
        let open_ = decrypt-encrypt prim_laws key written.plain d.draws written.sealed in
        rw (written.on_disk, load)
          (ap (parsed key) read
            ∙ ap (unsealed d.clock) open_
            ∙ ap (read_items d.clock) (laws.array_back written.raw written.plain written.listed)
            ∙ ap (λ is. ok (is, d.clock)) (marshal_back items written.marshalled))
