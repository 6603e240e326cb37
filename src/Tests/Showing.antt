-- ===== src/Tests/Showing.antt =====
-- A test that tokens show fields, and what it says.
use s3ro.Base.{
  ◌-◌, ◌*◌, Bool, true, false, ◌&&◌, List, [], ◌∷◌, Bytes, length, drop, str_eq, str_eq→eq, ◌==◌,
  ==→eq, ◌≡◌, refl, arith,
}
use s3ro.Daemon.{PosixEntry, fields_of}
use s3ro.Daemon.Children.{ShowsObjects}
use s3ro.Json.{
  Token, TokenType, string, object, primitive, array, undefined, token_text, is_string, is_object,
}
use s3ro.Json.Entry.{Field, key_of, text_of, fits, Spans, ShowsField, ShowsAll}

abbrev spans : Bytes → Token → Bytes → Bool
spans json tok text = tok.end - tok.start == length text && str_eq (token_text json tok) text

abbrev shows : Bytes → Field → Token → Token → Bool
shows json field key val =
    is_string key.type
    && (spans json key (key_of field) && (spans json val (text_of field) && fits field))

abbrev pub shows_all : Bytes → List Field → List Token → Bool
shows_all json [] tokens = true
shows_all json (field ∷ fields) [] = false
shows_all json (field ∷ fields) (_ ∷ []) = false
shows_all json (field ∷ fields) (key ∷ val ∷ tokens) =
    shows json field key val && shows_all json fields tokens

abbrev pub shows_objects : Bytes → List PosixEntry → List Token → Bool
shows_objects json [] tokens = true
shows_objects json (e ∷ es) [] = false
shows_objects json (e ∷ es) (head ∷ rest) =
    is_object head.type
    && (head.size == length (fields_of e)
        && (shows_all json (fields_of e) rest
            && shows_objects json es (drop (2 * length (fields_of e)) rest)))

and_both : (a b : Bool) → a && b ≡ true → (a ≡ true) × (b ≡ true)
and_both a b h = (ground arith, ground arith)

is_string→string : (t : TokenType) → is_string t ≡ true → t ≡ string
is_string→string string h = refl
is_string→string object h = cc
is_string→string array h = cc
is_string→string primitive h = cc
is_string→string undefined h = cc

is_object→object : (t : TokenType) → is_object t ≡ true → t ≡ object
is_object→object object h = refl
is_object→object string h = cc
is_object→object array h = cc
is_object→object primitive h = cc
is_object→object undefined h = cc

spans→Spans :
    (json : Bytes) (tok : Token) (text : Bytes) → spans json tok text ≡ true → Spans json tok text
spans→Spans json tok text h =
    let (len, bytes) =
      and_both (tok.end - tok.start == length text) (str_eq (token_text json tok) text) h in
    record {
      len = ==→eq (tok.end - tok.start) (length text) len;
      bytes = str_eq→eq (token_text json tok) text bytes;
    }

shows→ShowsField :
    (json : Bytes) (field : Field) (key val : Token)
    → shows json field key val ≡ true
    → ShowsField json field key val
shows→ShowsField json field key val h =
    let (kind, h1) = and_both (is_string key.type) _ h in
    let (keys, h2) = and_both (spans json key (key_of field)) _ h1 in
    let (values, room) = and_both (spans json val (text_of field)) (fits field) h2 in
    record {
      is_string = is_string→string key.type kind;
      keys = spans→Spans json key (key_of field) keys;
      values = spans→Spans json val (text_of field) values;
      fitting = room;
    }

pub shows_all→ShowsAll :
    (json : Bytes) (fields : List Field) (tokens : List Token)
    → shows_all json fields tokens ≡ true
    → ShowsAll json fields tokens
shows_all→ShowsAll json [] tokens h = tt
shows_all→ShowsAll json (field ∷ fields) [] h = cc
shows_all→ShowsAll json (field ∷ fields) (_ ∷ []) h = cc
shows_all→ShowsAll json (field ∷ fields) (key ∷ val ∷ tokens) h =
    let (first, later) = and_both (shows json field key val) (shows_all json fields tokens) h in
    (shows→ShowsField json field key val first, shows_all→ShowsAll json fields tokens later)

pub shows_objects→ShowsObjects :
    (json : Bytes) (es : List PosixEntry) (tokens : List Token)
    → shows_objects json es tokens ≡ true
    → ShowsObjects json es tokens
shows_objects→ShowsObjects json [] tokens h = tt
shows_objects→ShowsObjects json (e ∷ es) [] h = cc
shows_objects→ShowsObjects json (e ∷ es) (head ∷ rest) h =
    let (kind, h1) = and_both (is_object head.type) _ h in
    let (size, h2) = and_both (head.size == length (fields_of e)) _ h1 in
    let (fields, later) = and_both (shows_all json (fields_of e) rest) _ h2 in
    (
      is_object→object head.type kind,
      ==→eq head.size (length (fields_of e)) size,
      shows_all→ShowsAll json (fields_of e) rest fields,
      shows_objects→ShowsObjects json es (drop (2 * length (fields_of e)) rest) later,
    )
