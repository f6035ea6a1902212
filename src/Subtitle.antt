-- ===== src/Subtitle.antt =====
-- server/features/subtitle.py: a transcript is translated, where that is set up, and sent to a room.
-- The translation service is a parameter.
use quickonnect.Prelude.{
  ℕ, Bool, false, not, ◌&&◌, ◌||◌, Option, none, some, List, [], ◌∷◌, ◌++◌, Text, codes, nat_eq,
  text_eq, ◌==◌, if◌then◌else◌,
}
use quickonnect.Prelude.Dict.{values}
use quickonnect.Crypto.Jwt.{rstrip}
use quickonnect.Json
use quickonnect.Json.{Json, Fields, dict, num, str, obj, arr, items}
use quickonnect.Packet
use quickonnect.Rooms.{get_room_clients}
use quickonnect.Handler.{is_empty}
use quickonnect.World.{World, Env, deliver_all}

-- `SubtitleBroadcaster`
pub record SubtitleBroadcaster : Type 0 where
  pub room_code : Text
  pub translate_url : Text
  pub target_lang : Text

-- `__init__`, of the two environment variables.
unfoldable pub init : Text → Text → Text → SubtitleBroadcaster
init room_code url target_lang = record {
  room_code = room_code;
  translate_url = rstrip b'/' url;
  target_lang = target_lang;
}

-- The answer of the service to a text and a language; `none` is a request that raises.
abbrev pub Service : Type 0
Service = Text → Text → Option Json

abbrev pub Translation : Type 0
Translation = Json × Json

abbrev pub untranslated : Translation
untranslated = (str [], str (codes "auto"))

-- `data.get("detectedLanguage", {}).get("language", "auto")`; what is no `dict` has no `get`.
unfoldable pub detected : Fields → Option Json
detected event = elim (Json.get_or "detectedLanguage" (dict []) event) [
  | obj l ↦ some (Json.get_or "language" (str (codes "auto")) l)
  | _ ↦ none
]

abbrev pub with_source : Fields → Option Json → Translation
with_source event none = untranslated
with_source event (some source_lang) = (Json.get_or "translatedText" (str []) event, source_lang)

abbrev pub read_answer : Option Json → Translation
read_answer (some (obj event)) = with_source event (detected event)
read_answer _ = untranslated

-- `_translate`
unfoldable pub translate : Service → Text → Text → Translation
unfolding detected
translate service text target_lang = read_answer (service text target_lang)

abbrev pub english : Text
english = codes "en"

abbrev pub vietnamese : Text
vietnamese = codes "vi"

-- What a subtitle says of the translation: the text, the source language and the target language.
pub record Choice : Type 0 where
  pub translated_text : Json
  pub source_lang : Json
  pub target_lang : Text

-- Whether the text is in the target language already, one of the two that stand for each other. (A
-- language is a string.)
unfoldable pub is_already : Json → Text → Bool
is_already (str t) target_lang = (t == english || t == vietnamese) && t == target_lang
is_already _ target_lang = false

-- The other one of the two.
abbrev pub other_language : Text → Text
other_language target_lang = if target_lang == vietnamese then english else vietnamese

-- The second translation, where the first found the text to be in the target language.
unfoldable pub retarget : Service → Text → Text → Translation → Choice
unfolding is_already translate
retarget service text target_lang (translated_text, source_lang) =
    if is_already source_lang target_lang
    then record {
      translated_text = (translate service text (other_language target_lang)).0;
      source_lang = source_lang;
      target_lang = other_language target_lang;
    }
    else record {
      translated_text = translated_text;
      source_lang = source_lang;
      target_lang = target_lang;
    }

unfoldable pub choose : Service → SubtitleBroadcaster → Text → Choice
unfolding retarget
choose service s text =
    if not (is_empty s.translate_url) && not (is_empty s.target_lang)
    then retarget service text s.target_lang (translate service text s.target_lang)
    else record {
      translated_text = str [];
      source_lang = str (codes "auto");
      target_lang = s.target_lang;
    }

abbrev pub line : Json → Json → Json
line lang text = dict (("lang", lang) ∷ ("text", text) ∷ [])

unfoldable pub lines : Text → Choice → List Json
lines text c =
    (if is_empty text then [] else line c.source_lang (str text) ∷ [])
    ++ (if Json.truthy c.translated_text
        then line (str c.target_lang) c.translated_text ∷ []
        else [])

abbrev pub subtitle_payload : SubtitleBroadcaster → ℕ → Text → Text → Choice → Json
subtitle_payload s user_id username text c = dict (
    ("room_code", str s.room_code)
    ∷ ("speaker_user_id", num user_id)
    ∷ ("speaker_username", str username)
    ∷ ("text", str text)
    ∷ ("translated_text", c.translated_text)
    ∷ ("source_lang", c.source_lang)
    ∷ ("target_lang", str c.target_lang)
    ∷ ("lines", arr (items (lines text c)))
    ∷ [])

-- `broadcast_transcript`, to the clients of the broadcaster's room.
unfoldable pub broadcast_transcript :
    Env → Service → SubtitleBroadcaster → ℕ → Text → Text → World → World
unfolding choose lines
broadcast_transcript env service s user_id username text w =
    deliver_all env (values (get_room_clients s.room_code w)) Packet.subtitle
      (subtitle_payload s user_id username text (choose service s text)) w
