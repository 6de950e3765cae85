-- ===== src/DocumentStore.antt =====
-- flight_agent/document_store.py: the stored itineraries, under keys made of their contents.
--
-- The bucket is the dictionary of its objects. `S3` has what the calls of the S3 API do, and
-- Python's digest of a document; a document is a text.
use flight_multi_agent.Base.{
  ◌≡◌, inl, inr, refl, String, Bool, true, false, not, ◌&&◌, Option, none, some, [], ◌∷◌, str_eq,
  eq_iff, arith, if◌then◌else◌, Bool-cases, Option-cases,
}
use flight_multi_agent.Base.Text.{fstring, truthy}
use flight_multi_agent.Base.Assoc.{Dict, lookup, insert, lookup-insert}
use flight_multi_agent.Base.Result.{Result, ok, raise, value_error, client_error}
use flight_multi_agent.Trips.{DocumentMetadata, DocumentObjectRef}

-- The metadata `sha256` of an object, and its ETag
pub record StoredObject : Type 0 where
  pub digest : Option String
  pub etag : Option String

-- What the calls of one request do: `head_fails` and `put_fails` tell those that end in another
-- error than a missing object, and `etag` is the one that S3 gives to a new object.
pub record S3 : Type 0 where
  pub head_fails : Bool
  pub put_fails : Bool
  pub etag : Option String

-- Whether the object has the digest
abbrev pub has_digest : StoredObject → String → Bool
has_digest stored digest = elim stored.digest [ none ↦ false | some d ↦ str_eq d digest ]

abbrev pub document_key : String → String → String
document_key trip_id digest = fstring ("trips/" ∷ trip_id ∷ "/documents/" ∷ digest ∷ ".pdf" ∷ [])

unfoldable pub verify : String → S3 → DocumentObjectRef → Dict StoredObject → Bool
verify bucket s3 document objects =
    let stored : Bool = elim (lookup document.key objects) [
      | none ↦ false
      | some object ↦ has_digest object document.sha256
    ] in
    str_eq document.bucket bucket && (not s3.head_fails && stored)

-- Python's digest of a text, and `strip('"')`
module _ (sha256 strip_quotes : String → String) (bucket : String) where
  unfoldable pub clean_etag : Option String → Option String
  clean_etag none = none
  clean_etag (some etag) =
      let cleaned = strip_quotes etag in if truthy cleaned then some cleaned else none

  abbrev reference_to : String → String → Option String → DocumentObjectRef
  reference_to key digest etag = record {
    bucket = bucket;
    key = key;
    sha256 = digest;
    etag = clean_etag etag;
  }

  -- Where no object has the key yet
  unfoldable put_new :
      S3 → String → String → Dict StoredObject → Result (DocumentObjectRef × Dict StoredObject)
  put_new s3 key digest objects =
      if s3.put_fails
      then raise client_error
      else ok (
        reference_to key digest s3.etag,
        insert key (record { digest = some digest; etag = s3.etag }) objects,
      )

  unfoldable pub put_pdf :
      S3
      → String
      → DocumentMetadata
      → Dict StoredObject
      → Result (DocumentObjectRef × Dict StoredObject)
  unfolding put_new
  put_pdf s3 document metadata objects =
      let digest = sha256 document in
      let key = document_key metadata.trip_id digest in
      let found : Result (DocumentObjectRef × Dict StoredObject) = elim (lookup key objects) [
        | none ↦ put_new s3 key digest objects
        | some stored ↦
            if has_digest stored digest
            then ok (reference_to key digest stored.etag, objects)
            else raise value_error
      ] in
      if not (str_eq digest metadata.sha256)
      then raise value_error
      else if s3.head_fails
      then raise client_error
      else found

  -- A document that was stored is found: where S3 answers, the reference that was given for it is
  -- verified, it has the digest of the metadata, and storing the document again for the trip gives
  -- the same reference and leaves the bucket.
  pub verify-put_pdf :
      (s3 later : S3) (document : String) (metadata : DocumentMetadata)
      (objects next : Dict StoredObject) (reference : DocumentObjectRef)
      → put_pdf s3 document metadata objects ≡ ok (reference, next)
      → later.head_fails ≡ false
      → (verify bucket later reference next ≡ true)
        × (reference.sha256 ≡ metadata.sha256)
        × (put_pdf later document metadata next ≡ ok (reference, next))
  unfolding put_pdf put_new verify
  verify-put_pdf s3 later document metadata objects next reference put answers =
      let digest = sha256 document in
      let key = document_key metadata.trip_id digest in
      let own = (eq_iff bucket bucket).1 refl in
      let same = (eq_iff digest digest).1 refl in
      let named = (eq_iff key key).1 refl in
      elim (Bool-cases (str_eq digest metadata.sha256)) [
        | inr wrong ↦ absurd (ground arith)
        | inl right ↦ elim (Bool-cases s3.head_fails) [
          | inl down ↦ absurd (ground arith)
          | inr up ↦
              let digests = (eq_iff digest metadata.sha256).0 right in
              elim (Option-cases (lookup key objects)) [
                | inl missing ↦ elim (Bool-cases s3.put_fails) [
                  | inl refused ↦ absurd (ground arith)
                  | inr stored ↦
                      let made : StoredObject = record { digest = some digest; etag = s3.etag } in
                      let held = lookup-insert key key made objects in
                      let given : reference_to key digest s3.etag ≡ reference = ground arith in
                      let after : insert key made objects ≡ next = ground arith in
                      (ground arith, ground arith, ground arith)
                ]
                | inr (object, held) ↦ elim (Bool-cases (has_digest object digest)) [
                  | inr other ↦ absurd (ground arith)
                  | inl fits ↦
                      let given : reference_to key digest object.etag ≡ reference = ground arith in
                      let after : objects ≡ next = ground arith in
                      (ground arith, ground arith, ground arith)
                ]
              ]
        ]
      ]
