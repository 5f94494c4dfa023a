-- ===== src/Smalltalk.antt =====
-- core/smalltalk.py: the openers that are not questions. What Python reads off its Unicode tables
-- is the parameter `Folding`.
use Prim.Native.Char.{Char, code}
use eu_rag.Base.{
  ℕ, String, Bool, true, false, ◌||◌, List, [], ◌∷◌, ltb, eqb, any, if◌then◌else◌, ◌==◌,
}
use eu_rag.Base.Text.{Unicode, ◌<>◌, count, strip}

pub record Folding : Type 0 where
  pub unicode : Unicode
  -- `unicodedata.normalize("NFKD", text.casefold())`
  pub fold : String → String
  -- combining marks, and the categories S and C
  pub is_dropped : Char → Bool
  -- `\s` of a regular expression
  pub is_blank : Char → Bool

abbrev pub patterns : List String
patterns =
    "hi" ∷ "hii" ∷ "hiii" ∷ "hey" ∷ "heya" ∷ "hello" ∷ "helo" ∷ "hallo" ∷ "yo" ∷ "hi there"
    ∷ "hey there" ∷ "hello there" ∷ "good morning" ∷ "good afternoon" ∷ "good evening" ∷ "good day"
    ∷ "greetings" ∷ "bonjour" ∷ "salut" ∷ "hola" ∷ "buenos dias" ∷ "ciao" ∷ "guten tag"
    ∷ "hallo zusammen" ∷ "ola" ∷ "czesc" ∷ "dzien dobry" ∷ "hej" ∷ "hei" ∷ "moi" ∷ "salve" ∷ "szia"
    ∷ "ahoj" ∷ "zdravo" ∷ "merhaba" ∷ "how are you" ∷ "how are you doing" ∷ "how are you today"
    ∷ "how do you do" ∷ "how is it going" ∷ "hows it going" ∷ "how are things" ∷ "you ok"
    ∷ "are you ok" ∷ "are you there" ∷ "you there" ∷ "whats up" ∷ "wassup" ∷ "sup" ∷ "who are you"
    ∷ "what are you" ∷ "what is this" ∷ "whats this" ∷ "what is eurag" ∷ "what's eurag"
    ∷ "who is eurag" ∷ "what do you do" ∷ "what can you do" ∷ "what can i ask"
    ∷ "what can i ask you" ∷ "what can you help with" ∷ "what can you help me with"
    ∷ "how does this work" ∷ "how do you work" ∷ "how does it work" ∷ "what is this for" ∷ "help"
    ∷ "help me" ∷ "start" ∷ "test" ∷ "testing" ∷ "thanks" ∷ "thank you" ∷ "thanks a lot"
    ∷ "thank you very much" ∷ "thx" ∷ "ty" ∷ "cheers" ∷ "nice" ∷ "cool" ∷ "great" ∷ "ok" ∷ "okay"
    ∷ "k" ∷ "bye" ∷ "goodbye" ∷ "good bye" ∷ "see you" ∷ "see ya" ∷ "later" ∷ "danke" ∷ "merci"
    ∷ "gracias" ∷ "grazie" ∷ "obrigado" ∷ "dziekuje" ∷ []

abbrev pub max_smalltalk_chars : ℕ
max_smalltalk_chars = 40

abbrev pub smalltalk_reply : String
smalltalk_reply =
    "Hello — I'm EURAG. I answer questions about EU compliance and funding for small and medium businesses, and every claim I make cites the official text it comes from.\n\nAsk me something specific and I'll show you the sources. For example:\n\n- Do I need a data protection officer for a 30-person company?\n- How long is the legal guarantee when I sell goods to consumers?\n- Which currently open EU funding calls could my startup apply to?\n- What interest can I charge when a business customer pays late?\n\nI can only answer from the official texts in my corpus, so if something falls outside it I'll tell you that rather than guess."

-- the punctuation of `_TRIM`
is_mark : Char → Bool
is_mark c =
    any (λ n. eqb n (code c))
      (b'!' ∷ b'?' ∷ b'.' ∷ b',' ∷ b';' ∷ b':' ∷ 39 ∷ 34 ∷ b'(' ∷ b')' ∷ b'[' ∷ b']' ∷ b'-' ∷ 8211
        ∷ 8212 ∷ b'*' ∷ b'_' ∷ [])

without : (Char → Bool) → String → String
without is_out String.[] = ""
without is_out (String.◌∷◌ c s) =
    let rest = without is_out s in if is_out c then rest else String.◌∷◌ c rest

-- `_SPACES.sub(" ", …)`; `inside` tells that the run has had its blank
squeeze : (Char → Bool) → Bool → String → String
squeeze is_blank inside String.[] = ""
squeeze is_blank inside (String.◌∷◌ c s) =
    let within = squeeze is_blank true s in
    let outside = String.◌∷◌ c (squeeze is_blank false s) in
    if is_blank c then (if inside then within else " " <> within) else outside

unfoldable pub normalise : Folding → String → String
unfolding is_mark without squeeze
normalise f text =
    let stripped = without f.is_dropped (f.fold text) in
    strip f.unicode (
      squeeze f.is_blank false
        (strip (record f.unicode { is_space = λ c. f.is_blank c || is_mark c }) stripped))

unfoldable pub is_smalltalk : Folding → String → Bool
unfolding normalise
is_smalltalk f question =
    if ltb max_smalltalk_chars (count question)
    then false
    else any (λ p. p == normalise f question) patterns
