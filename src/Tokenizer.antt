-- ===== src/Tokenizer.antt =====
-- internal/tokenizer/tokenizer.go: how tokens are counted, and the registry of tokenizers under
-- suspicion. The tokenizer library is a parameter: an encoding is its count of a text's tokens, and
-- `Library` is what it finds at the moment of a call (it may load files, and fail). Each method that
-- holds its mutex is one step.
pub mod Cache
pub mod Streak
use stream_guard.Prelude.{
  ℕ, ◌+◌, Bool, true, false, List, [], ◌∷◌, Option, none, some, String, Dict, lookup, insert,
  length, leb, eqb, if◌then◌else◌,
}
use stream_guard.Text.{
  Bytes, codes, eq_bytes, is_empty, fields, trim_space, to_lower, contains_text,
}

-- `ChunkCounter.Count`.
unfoldable pub count_chunks : Bytes → ℕ
unfolding fields
count_chunks text =
    if is_empty text then 0 else let n = length (fields text) in if eqb n 0 then 1 else n

abbrev pub Encoding : Type 0
Encoding = Bytes → ℕ

pub record Library : Type 0 where
  pub encoding_for_model : Bytes → Option Encoding
  pub get_encoding : Bytes → Option Encoding

-- The cache of `OpenAICounter`.
abbrev pub Encodings : Type 0
Encodings = List (Bytes × Encoding)

unfoldable pub cached : Bytes → Encodings → Option Encoding
unfolding eq_bytes
cached key [] = none
cached key ((k, enc) ∷ rest) = if eq_bytes k key then some enc else cached key rest

abbrev default_encoding : Bytes
default_encoding = codes "cl100k_base"

abbrev or_default : Bytes → Bytes
or_default key = if is_empty key then default_encoding else key

unfoldable pub model_key : Bytes → Bytes
unfolding trim_space
model_key model = or_default (trim_space model)

abbrev or_else : Option Encoding → Option Encoding → Option Encoding
or_else (some enc) other = some enc
or_else none other = other

-- What a miss of the cache finds.
unfoldable pub load : Library → Bytes → Option Encoding
load lib key = or_else (lib.encoding_for_model key) (lib.get_encoding default_encoding)

abbrev remember : Bytes → Option Encoding → Encodings → Encodings × Option Encoding
remember key none cache = (cache, none)
remember key (some enc) cache = ((key, enc) ∷ cache, some enc)

abbrev look_up : Library → Bytes → Option Encoding → Encodings → Encodings × Option Encoding
look_up lib key (some enc) cache = (cache, some enc)
look_up lib key none cache = remember key (load lib key) cache

-- `encodingForModel`.
unfoldable pub encoding_for_model : Library → Bytes → Encodings → Encodings × Option Encoding
unfolding cached model_key load
encoding_for_model lib model cache =
    look_up lib (model_key model) (cached (model_key model) cache) cache

abbrev pub count_with : Option Encoding → Bytes → ℕ
count_with none text = count_chunks text
count_with (some enc) text = enc text

-- `OpenAICounter.Count`.
unfoldable pub count_openai : Library → Bytes → Bytes → Encodings → Encodings × ℕ
unfolding encoding_for_model
count_openai lib model text cache =
    if is_empty text
    then (cache, 0)
    else let (cache', enc) = encoding_for_model lib model cache in (cache', count_with enc text)

-- Whether `ProviderAwareCounter.Count` asks the library.
unfoldable pub is_openai : String → Bytes → Bool
unfolding eq_bytes to_lower trim_space contains_text
is_openai provider hint =
    if eq_bytes (to_lower (trim_space hint)) (codes "mock-chunk-v1")
    then false
    else contains_text (to_lower (codes provider)) (codes "openai")

-- `ProviderAwareCounter.Count`. Its case for Anthropic does what its default does.
unfoldable pub count : Library → String → Bytes → Bytes → Bytes → Encodings → Encodings × ℕ
unfolding is_openai count_openai count_chunks
count lib provider model hint text cache =
    if is_openai provider hint
    then count_openai lib model text cache
    else (cache, count_chunks text)

pub record Entry : Type 0 where
  pub provider_name : String
  pub pinned_version : String
  pub consecutive_above_threshold : ℕ

abbrev pub Registry : Type 0
Registry = Dict Entry

abbrev new_entry : String → String → Entry
new_entry provider version = record {
  provider_name = provider;
  pinned_version = version;
  consecutive_above_threshold = 0;
}

unfoldable pub register : String → String → Registry → Registry
register provider version r = insert provider (new_entry provider version) r

-- `NewProviderAwareCounter` on a registry.
unfoldable pub register_known : Registry → Registry
unfolding register
register_known r =
    register "anthropic" "stream-usage-output-tokens" (register "openai" "tiktoken-go" r)

abbrev pub or_unknown : String → Option Entry → Entry
or_unknown provider none = new_entry provider "chunk-counter-v1"
or_unknown provider (some e) = e

abbrev pub tally : Bool → Entry → Entry
tally above e = record e {
  consecutive_above_threshold = if above then e.consecutive_above_threshold + 1 else 0;
}

unfoldable pub observe : String → Bool → Registry → Registry × Bool
observe provider above r =
    let e = tally above (or_unknown provider (lookup provider r)) in
    (insert provider e r, leb 3 e.consecutive_above_threshold)

unfoldable pub snapshot : String → Registry → Option Entry
snapshot provider r = lookup provider r
