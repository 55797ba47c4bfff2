-- ===== src/ApiKeys/Lifecycle.antt =====
-- What becomes of a new API key.
use Prim.Native.String.{◌++◌ as append}
use Prim.Native.String.append
use python_codebase.Prelude.{
  ℕ, len, first_chars, zero, suc, ◌+◌, ◌≤◌, ◌≡◌, refl, String, false, Option, some, List, leb,
  arith,
}
use python_codebase.Result.{err, data_error}
use python_codebase.Sql.{tenant_column}
use python_codebase.ApiKeys.{ApiKeyDb, FitsColumn, create, raw_key, generate}

len-first_chars : (n : ℕ) (s : String) → n ≤ len s → len (first_chars n s) ≡ n
len-first_chars zero s h = refl
len-first_chars (suc n) String.[] h = omega arith
len-first_chars (suc n) (String.◌∷◌ c s) h = omega (arith, len-first_chars n s (omega arith))

len-append : (s t : String) → len (append s t) ≡ len s + len t
len-append String.[] t = rw (append.nil t) (omega arith)
len-append (String.◌∷◌ c s) t = rw (append.cons c s t) (omega (arith, len-append s t))

-- Where the database enforces the lengths of its columns, no key of eight drawn characters or more
-- is ever created: the prefix has twelve characters, and its column eight.
pub generate_refused :
    (sha256 : String → String) (t : ℕ) (fits : FitsColumn) (name : String)
    (permissions : List String) (expires_at : Option ℕ) (drawn : String) (db : ApiKeyDb)
    → ((n : ℕ) (s : String) → fits n s ≡ leb (len s) n)
    → 8 ≤ len drawn
    → generate sha256 (some t) fits name permissions expires_at drawn db ≡ (err data_error, db)
unfolding generate create tenant_column
generate_refused sha256 t fits name permissions expires_at drawn db enforced drawn_long =
    let long : 12 ≤ len (raw_key sha256 (some t) drawn) =
      rw (len-append "api_" drawn) (omega arith) in
    let over : fits 8 (first_chars 12 (raw_key sha256 (some t) drawn)) ≡ false =
      rw
        (
          enforced 8 (first_chars 12 (raw_key sha256 (some t) drawn)),
          len-first_chars 12 (raw_key sha256 (some t) drawn) long,
        )
        refl in
    rw over refl
