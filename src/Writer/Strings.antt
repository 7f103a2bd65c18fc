-- ===== src/Writer/Strings.antt =====
-- src/backend/codegen/writer.cpp: the recorded place of a string is where its bytes are.
use occult.Common.{
  ℕ, [], ◌∷◌, ◌++◌, Bytes, length, All, All-map, append-append, append-nil, Option-cases, inl, inr,
  ◌≡◌, refl,
}
use occult.Writer.{Writer, push_byte, push_bytes, push_string, new_writer}
use occult.Linker.Link.{find_name}

-- The bytes of the string stand in the code from its place on.
pub record IsLocated (code : Bytes) (entry : Bytes × ℕ) : Type 0 where
  pub before : Bytes
  pub after : Bytes
  pub place : entry.1 ≡ length before
  pub holds : code ≡ before ++ entry.0 ++ after

abbrev pub IsValid : Writer → Type 0
IsValid w = All (IsLocated (w.code)) (w.string_locations)

IsLocated-append :
    (code more : Bytes) (entry : Bytes × ℕ) → IsLocated code entry → IsLocated (code ++ more) entry
IsLocated-append code more entry h = record {
  before = h.before;
  after = h.after ++ more;
  place = h.place;
  holds = rw (h.holds, append-append, append-append) refl;
}

push_bytes-IsValid : (w : Writer) (bytes : Bytes) → IsValid w → IsValid (push_bytes w bytes)
unfolding push_bytes
push_bytes-IsValid w bytes valid =
    All-map (IsLocated (w.code)) (IsLocated (w.code ++ bytes)) (w.string_locations)
      (IsLocated-append (w.code) bytes) valid

push_string-IsValid : (w : Writer) (str : Bytes) → IsValid w → IsValid (push_string w str).0
unfolding push_string push_bytes
push_string-IsValid w str valid =
    let more =
      All-map (IsLocated (w.code)) (IsLocated (w.code ++ str)) (w.string_locations)
        (IsLocated-append (w.code) str) valid in
    let here : IsLocated (w.code ++ str) (str, length (w.code)) = record {
      before = w.code;
      after = [];
      place = refl;
      holds = rw append-nil refl;
    } in
    elim (Option-cases (find_name str (w.string_locations))) [
      | inl e ↦ rw e (here, more)
      | inr (a, e) ↦ rw e more
    ]

-- A new writer has no place recorded, and whatever is appended, a byte, bytes or a string that is
-- new or was there before, every recorded place still is where the bytes of its string are, if that
-- held before.
pub operations-IsValid :
    (w : Writer) (page_size byte : ℕ) (bytes str : Bytes)
    → IsValid w
    → IsValid (new_writer page_size)
      × (IsValid (push_byte w byte)
          × (IsValid (push_bytes w bytes) × IsValid (push_string w str).0))
unfolding push_byte push_bytes
operations-IsValid w page_size byte bytes str valid = (
  tt,
  (
    push_bytes-IsValid w (byte ∷ []) valid,
    (push_bytes-IsValid w bytes valid, push_string-IsValid w str valid),
  ),
)
