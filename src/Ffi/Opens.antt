-- ===== src/Ffi/Opens.antt =====
-- What sjson_document_parse gives, and what is found in the document.
use s_json.Base.{ℕ, Bool, ◌≡◌, ◌≢◌, refl, Option, none, some, Bytes, if-cases}
use s_json.Error.{json_ok, ok, err}
use s_json.Arena.{JsonAllocator, Arena, json_arena_create}
use s_json.Number.{Fpu}
use s_json.Parser.Run.{Parsed, returned, undefined, json_parse}
use s_json.Parser.Total.{Returns, json_parse-Returns}
use s_json.Ffi.{
  Opened, opened, closed, undefined_access, parsed_in, in_document, sjson_document_parse,
}
use s_json.Parser.ArenaAfter.{IsSound, ArenaIsSound, json_parse-ArenaIsSound}
use s_json.Arena.Reset.{json_arena_create-IsValid}
use s_json.Base.{arith}

-- A document whose arena is valid, or NULL with a status that is an error.
abbrev pub Opens : Opened → Type 0
Opens (opened doc) = IsSound doc.arena
Opens (closed e a) = e ≢ json_ok
Opens undefined_access = ⊥

in_document-Opens :
    (before : Arena) (p : Parsed)
    → IsSound before
    → Returns p
    → ArenaIsSound p
    → Opens (in_document before p)
unfolding in_document
in_document-Opens before (returned (ok root) (some arena)) b r s = s
in_document-Opens before (returned (ok root) none) b r s = b
in_document-Opens before (returned (err e) arena) b r s = r
in_document-Opens before undefined b r s = r

created-IsSound :
    (libc : JsonAllocator) {a : Arena} → json_arena_create libc none 4096 ≡ some a → IsSound a
created-IsSound libc e =
    let (valid, one, bytes, nodes, calls) =
      json_arena_create-IsValid libc none 4096 (omega arith) e in
    record { valid = valid; nodes = omega (arith, nodes) }

-- sjson_document_parse gives, on any bytes and whatever requests for memory are granted, a document whose
-- arena is valid and within the limit of nodes, or NULL with a status other than JSON_OK; no access is
-- undefined.
pub sjson_document_parse-Opens :
    (fpu : Fpu) (libc : JsonAllocator) (has_doc : Bool) (bytes : Option Bytes) (length : ℕ)
    → Opens (sjson_document_parse fpu libc has_doc bytes length)
unfolding sjson_document_parse
sjson_document_parse-Opens fpu libc has_doc none length = ground arith
sjson_document_parse-Opens fpu libc has_doc (some bytes) length =
    if-cases Opens has_doc _ _
      (λ _. go (json_arena_create libc none 4096) (λ a e. created-IsSound libc e))
      (λ _. ground arith)
  where
    go :
        (made : Option Arena)
        → ((a : Arena) → made ≡ some a → IsSound a)
        → Opens (parsed_in fpu bytes length made)
    go none sound = ground arith
    go (some a) sound =
        in_document-Opens a (json_parse fpu (some a) (some bytes) length) (sound a refl)
          (json_parse-Returns fpu (some a) (some bytes) length)
          (json_parse-ArenaIsSound fpu a (some bytes) length (sound a refl))
