-- ===== src/Uploads/Security.antt =====
-- src/modules/uploads/upload-security.ts. A buffer is the list of its bytes, and `subarray(0, n)` is
-- `take n`; the scanner behind the webhook is a parameter.
use Prim.Native.String.{len, find}
use text.Mathlib.Text.{◌==◌ as str_eq}
use production_backend_found.Prelude.{
  ℕ, zero, suc, ◌%◌, Bool, true, false, not, ◌&&◌, ◌||◌, Option, none, some, String, List, [], ◌∷◌,
  ◌==◌, ltb, take, map, if◌then◌else◌,
}
use production_backend_found.Errors.{Result, ok, ◌>>=◌, ◌>>◌, throw_if, plain_error}

-- `Buffer.equals`.
abbrev pub bytes_eq : List ℕ → List ℕ → Bool
bytes_eq [] [] = true
bytes_eq [] (b ∷ bs) = false
bytes_eq (a ∷ as_) [] = false
bytes_eq (a ∷ as_) (b ∷ bs) = a == b && bytes_eq as_ bs

abbrev drop : ℕ → List ℕ → List ℕ
drop zero bs = bs
drop (suc n) [] = []
drop (suc n) (b ∷ bs) = drop n bs

-- `toString('ascii')` unsets the highest bit of each byte.
abbrev pub ascii : List ℕ → List ℕ
ascii = map (λ b. b % 128)

abbrev pub is_jpeg : List ℕ → Bool
is_jpeg bytes = bytes_eq (take 3 bytes) (0xff ∷ 0xd8 ∷ 0xff ∷ [])

abbrev pub is_png : List ℕ → Bool
is_png bytes = bytes_eq (take 8 bytes) (0x89 ∷ 0x50 ∷ 0x4e ∷ 0x47 ∷ 0x0d ∷ 0x0a ∷ 0x1a ∷ 0x0a ∷ [])

-- 'RIFF' at 0 and 'WEBP' at 8.
abbrev pub is_webp : List ℕ → Bool
is_webp bytes =
    bytes_eq (ascii (take 4 bytes)) (82 ∷ 73 ∷ 70 ∷ 70 ∷ [])
    && bytes_eq (ascii (take 4 (drop 8 bytes))) (87 ∷ 69 ∷ 66 ∷ 80 ∷ [])

-- '%PDF-'.
abbrev pub is_pdf : List ℕ → Bool
is_pdf bytes = bytes_eq (ascii (take 5 bytes)) (37 ∷ 80 ∷ 68 ∷ 70 ∷ 45 ∷ [])

unfoldable pub detect_content_type : List ℕ → Option String
detect_content_type bytes =
    if is_jpeg bytes
    then some "image/jpeg"
    else if is_png bytes
    then some "image/png"
    else if is_webp bytes
    then some "image/webp"
    else if is_pdf bytes
    then some "application/pdf"
    else none

-- `String.includes`: `find` answers more than the length where there is no occurrence.
abbrev includes : String → String → Bool
includes s t = ltb (find s t) (suc (len s))

unfoldable pub requires_document_cdr : String → Bool
requires_document_cdr content_type =
    str_eq content_type "application/pdf"
    || includes content_type "word"
    || includes content_type "officedocument"

-- The verdicts of a scan, and those that only an upload row holds.
pub data ScanVerdict : Type 0 where
  clean malicious signature_mismatch scan_error unknown_verdict : ScanVerdict

abbrev pub is_clean : ScanVerdict → Bool
is_clean clean = true
is_clean _ = false

abbrev pub is_malicious : ScanVerdict → Bool
is_malicious malicious = true
is_malicious _ = false

pub data ScanMode : Type 0 where
  disabled webhook : ScanMode

abbrev pub is_scan_disabled : ScanMode → Bool
is_scan_disabled disabled = true
is_scan_disabled webhook = false

-- The webhook's answer: `response.ok` and the verdict in its body.
pub record ScanResponse : Type 0 where
  pub is_ok : Bool
  pub verdict : ScanVerdict

-- `answer` is what `fetch` gives: it may throw, and so may reading the body.
unfoldable pub scan_upload : ScanMode → Result ScanResponse → Result ScanVerdict
scan_upload disabled answer = ok clean
scan_upload webhook answer = do
  response ← answer
  throw_if (not response.is_ok) plain_error
  throw_if (not (is_clean response.verdict) && not (is_malicious response.verdict)) plain_error
  ok response.verdict
