-- ===== src/Parsers/Ssnt/Format.antt =====
-- app/parsers/ssnt.py: the blobs that `parse_note_blob` accepts, described with no parser.
use mathlib.Core.List.{append-nil}
use super_secure_notes_api.Prelude.{
  ℕ, ◌≡◌, refl, sym, ap, subst, ◌∙◌, ◌↔◌, true, List, [], ◌∷◌, ◌++◌, arith, length, ◌==◌, ==→eq,
}
use super_secure_notes_api.Prelude.Result.{Result, ok, err}
use super_secure_notes_api.Parsers.Buffer.{
  ByteReader, ParseFailure, byte_reader, at_end, unpack_be, unsupported_version,
}
use super_secure_notes_api.Parsers.Buffer.Grammar.{
  Exact, Then, Unpacked, LengthPrefixed, LengthPrefixedString, Exact-bind, Exact-map, Exact-read_u8,
  Exact-pure, Exact-check, Exact-unpacked, Exact-read_u32_be, Exact-read_u64_be,
  Exact-read_length_prefixed_bytes, Exact-read_length_prefixed_string, Exact-expect_magic,
  at_end_iff, join, one_byte,
}
use super_secure_notes_api.Parsers.Ssnt.{
  NoteMetadata, ssnt_magic, read_note_id, check_version, read_note, whole_blob, parse_note_blob,
}

-- The encoded fields of a blob, in order.
pub record NoteFields : Type 0 where
  pub note_id : List ℕ
  pub title : List ℕ
  pub created_at : List ℕ
  pub updated_at : List ℕ
  pub attachment_count : List ℕ
  pub attachments_total_size : List ℕ
  pub wrapped_fek : List ℕ
  pub encrypted_payload : List ℕ

abbrev pub note_blob : NoteFields → List ℕ
note_blob f =
    ssnt_magic
    ++ (1 ∷ [])
    ++ (f.note_id
        ++ (f.title
            ++ (f.created_at
                ++ (f.updated_at
                    ++ (f.attachment_count
                        ++ (f.attachments_total_size ++ (f.wrapped_fek ++ f.encrypted_payload)))))))

-- Each field has the width of its kind, and the metadata are what the fields spell.
pub record Spells (f : NoteFields) (m : NoteMetadata) : Type 0 where
  pub note_id : Unpacked 16 f.note_id m.note_id
  pub title : LengthPrefixedString f.title m.title
  pub created_at : length f.created_at ≡ 8
  pub updated_at : Unpacked 8 f.updated_at m.updated_at
  pub attachment_count : Unpacked 4 f.attachment_count m.attachment_count
  pub attachments_total_size : Unpacked 8 f.attachments_total_size m.attachments_total_size
  pub wrapped_fek : (raw : List ℕ) × LengthPrefixed f.wrapped_fek raw
  pub encrypted_payload : (raw : List ℕ) × LengthPrefixed f.encrypted_payload raw

abbrev pub IsNoteBlob : List ℕ → NoteMetadata → Type 0
IsNoteBlob blob m = (f : NoteFields) × (blob ≡ note_blob f) × Spells f m

Exact-check_version : Exact check_version (λ enc _. enc ≡ 1 ∷ [])
unfolding check_version unpack_be
Exact-check_version =
    Exact-map (Exact-bind Exact-read_u8 (λ v. Exact-check (v == 1) (unsupported_version v)))
      (λ enc _. (
        (λ (v, e, f, split, byte, (empty, test)).
            join split (one_byte v e byte ∙ ap (λ x. x ∷ []) (==→eq v 1 test)) empty),
        (λ same. (
          1,
          enc,
          [],
          sym (append-nil enc),
          (ap length same, ap (unpack_be 0) (sym same)),
          (refl, refl),
        )),
      ))

Exact-read_note_id : Exact read_note_id (Unpacked 16)
unfolding read_note_id
Exact-read_note_id = Exact-unpacked 16

-- The reads one after another.
abbrev NoteReads : List ℕ → NoteMetadata → Type 0
NoteReads =
    Then {A = Unit {0}} (λ enc _. enc ≡ ssnt_magic)
      λ _.
        Then {A = Unit {0}} (λ enc _. enc ≡ 1 ∷ [])
          λ _. Then (Unpacked 16) λ note_id. Then LengthPrefixedString λ title.
            Then (Unpacked 8) λ _. Then (Unpacked 8) λ updated_at.
              Then (Unpacked 4) λ attachment_count. Then (Unpacked 8) λ attachments_total_size.
                Then LengthPrefixed λ _. Then LengthPrefixed λ _ enc m.
                  (enc ≡ [])
                  × (m ≡ record {
                    note_id = note_id;
                    title = title;
                    updated_at = updated_at;
                    attachment_count = attachment_count;
                    attachments_total_size = attachments_total_size;
                  })

note_fields : (enc : List ℕ) (m : NoteMetadata) → NoteReads enc m → IsNoteBlob enc m
note_fields enc m
      (
        _,
        _,
        _,
        s0,
        magic,
        (
          _,
          _,
          _,
          s1,
          version,
          (
            _,
            id,
            _,
            s2,
            id_h,
            (
              _,
              title,
              _,
              s3,
              title_h,
              (
                _,
                created,
                _,
                s4,
                created_h,
                (
                  _,
                  updated,
                  _,
                  s5,
                  updated_h,
                  (
                    _,
                    count,
                    _,
                    s6,
                    count_h,
                    (
                      _,
                      total,
                      _,
                      s7,
                      total_h,
                      (
                        fek_raw,
                        fek,
                        _,
                        s8,
                        fek_h,
                        (payload_raw, payload, _, s9, payload_h, (done, same)),
                      ),
                    ),
                  ),
                ),
              ),
            ),
          ),
        ),
      ) =
    (
      record {
        note_id = id;
        title = title;
        created_at = created;
        updated_at = updated;
        attachment_count = count;
        attachments_total_size = total;
        wrapped_fek = fek;
        encrypted_payload = payload;
      },
      join s0 magic (
          join s1 version (
            join s2 refl (
              join s3 refl (
                join s4 refl (
                  join s5 refl (
                    join s6 refl
                      (join s7 refl (join s8 refl (join s9 refl done ∙ append-nil payload))))))))),
      subst (Spells _) (sym same) (record {
        note_id = id_h;
        title = title_h;
        created_at = created_h.0;
        updated_at = updated_h;
        attachment_count = count_h;
        attachments_total_size = total_h;
        wrapped_fek = (fek_raw, fek_h);
        encrypted_payload = (payload_raw, payload_h);
      }),
    )

fields_note : (enc : List ℕ) (m : NoteMetadata) → IsNoteBlob enc m → NoteReads enc m
fields_note enc m (f, e, s) = (
  tt,
  ssnt_magic,
  _,
  e,
  refl,
  (
    tt,
    1 ∷ [],
    _,
    refl,
    refl,
    (
      m.note_id,
      f.note_id,
      _,
      refl,
      s.note_id,
      (
        m.title,
        f.title,
        _,
        refl,
        s.title,
        (
          unpack_be 0 f.created_at,
          f.created_at,
          _,
          refl,
          (s.created_at, refl),
          (
            m.updated_at,
            f.updated_at,
            _,
            refl,
            s.updated_at,
            (
              m.attachment_count,
              f.attachment_count,
              _,
              refl,
              s.attachment_count,
              (
                m.attachments_total_size,
                f.attachments_total_size,
                _,
                refl,
                s.attachments_total_size,
                (
                  s.wrapped_fek.0,
                  f.wrapped_fek,
                  _,
                  refl,
                  s.wrapped_fek.1,
                  (
                    s.encrypted_payload.0,
                    f.encrypted_payload,
                    [],
                    sym (append-nil f.encrypted_payload),
                    s.encrypted_payload.1,
                    (refl, refl),
                  ),
                ),
              ),
            ),
          ),
        ),
      ),
    ),
  ),
)

Exact-read_note : Exact read_note IsNoteBlob
unfolding read_note
Exact-read_note =
    Exact-map
      (Exact-bind (Exact-expect_magic ssnt_magic) λ _. Exact-bind Exact-check_version λ _.
        Exact-bind Exact-read_note_id λ note_id.
          Exact-bind Exact-read_length_prefixed_string λ title. Exact-bind Exact-read_u64_be λ _.
            Exact-bind Exact-read_u64_be λ updated_at.
              Exact-bind Exact-read_u32_be λ attachment_count.
                Exact-bind Exact-read_u64_be λ attachments_total_size.
                  Exact-bind Exact-read_length_prefixed_bytes λ _.
                    Exact-bind Exact-read_length_prefixed_bytes λ _. Exact-pure (record {
                      note_id = note_id;
                      title = title;
                      updated_at = updated_at;
                      attachment_count = attachment_count;
                      attachments_total_size = attachments_total_size;
                    }))
      (λ enc m. (note_fields enc m, fields_note enc m))

whole_blob-ok :
    (x : Result ParseFailure (NoteMetadata × ByteReader)) (m : NoteMetadata)
    → whole_blob x ≡ ok m
    → (r : ByteReader) × (x ≡ ok (m, r)) × (at_end r ≡ true)
unfolding whole_blob
whole_blob-ok (ok (n, r)) m h = (r, ground arith, ground arith)
whole_blob-ok (err e) m h = cc

-- `parse_note_blob` succeeds on exactly the blobs that are the magic, the version 1 and the encoded
-- fields with nothing after them, and returns the metadata that those fields spell.
pub parse_note_blob_iff :
    (blob : List ℕ) (m : NoteMetadata) → (parse_note_blob blob ≡ ok m) ↔ IsNoteBlob blob m
unfolding parse_note_blob
parse_note_blob_iff [] m = ((λ h. cc), (λ (f, e, s). cc))
parse_note_blob_iff (b ∷ bytes) m = (
  (λ h.
      let (r, read, ended) = whole_blob-ok (read_note (byte_reader (b ∷ bytes))) m h in
      let (enc, is, split) = Exact-read_note.reads (byte_reader (b ∷ bytes)) r m read in
      subst (λ x. IsNoteBlob x m) (sym (join split refl ((at_end_iff r).0 ended) ∙ append-nil enc))
        is),
  (λ is.
      let (r, read, left) =
        Exact-read_note.accepts (byte_reader (b ∷ bytes)) (b ∷ bytes) [] m
          (sym (append-nil (b ∷ bytes))) is in
      rw (read, (at_end_iff r).1 left) refl),
)
