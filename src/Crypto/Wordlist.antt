-- ===== src/Crypto/Wordlist.antt =====
-- internal/shared/crypto/passphrase.go: the word list.
use go_yandex_gophkeeper.Base.{List, String, [], ◌∷◌, ◌++◌, length, ◌≡◌, refl}

-- `passphraseWordlist`, in parts of 63 words.
words0 : List String
words0 =
    "able" ∷ "acid" ∷ "aged" ∷ "also" ∷ "area" ∷ "army" ∷ "away" ∷ "baby" ∷ "back" ∷ "ball" ∷ "band"
    ∷ "bank" ∷ "base" ∷ "bath" ∷ "bear" ∷ "beat" ∷ "bell" ∷ "best" ∷ "bird" ∷ "blow" ∷ "blue"
    ∷ "bold" ∷ "bond" ∷ "bone" ∷ "book" ∷ "boot" ∷ "born" ∷ "bowl" ∷ "burn" ∷ "calm" ∷ "came"
    ∷ "camp" ∷ "card" ∷ "care" ∷ "cart" ∷ "case" ∷ "cash" ∷ "cast" ∷ "cave" ∷ "cell" ∷ "chip"
    ∷ "city" ∷ "clan" ∷ "clay" ∷ "clip" ∷ "club" ∷ "coal" ∷ "coat" ∷ "code" ∷ "coin" ∷ "cold"
    ∷ "comb" ∷ "come" ∷ "cook" ∷ "cool" ∷ "copy" ∷ "core" ∷ "corn" ∷ "cost" ∷ "crew" ∷ "crop"
    ∷ "cube" ∷ "cure" ∷ []

words1 : List String
words1 =
    "curl" ∷ "dame" ∷ "damp" ∷ "dare" ∷ "dark" ∷ "dash" ∷ "data" ∷ "dawn" ∷ "days" ∷ "dead" ∷ "deal"
    ∷ "dean" ∷ "deep" ∷ "deer" ∷ "desk" ∷ "dirt" ∷ "disk" ∷ "doll" ∷ "dome" ∷ "door" ∷ "dose"
    ∷ "down" ∷ "draw" ∷ "drop" ∷ "drum" ∷ "dual" ∷ "dusk" ∷ "dust" ∷ "duty" ∷ "each" ∷ "earn"
    ∷ "ease" ∷ "east" ∷ "edge" ∷ "epic" ∷ "even" ∷ "ever" ∷ "exam" ∷ "face" ∷ "fact" ∷ "fail"
    ∷ "fair" ∷ "fall" ∷ "fame" ∷ "farm" ∷ "fast" ∷ "fate" ∷ "felt" ∷ "file" ∷ "fill" ∷ "film"
    ∷ "find" ∷ "fire" ∷ "fish" ∷ "fist" ∷ "flag" ∷ "flat" ∷ "flew" ∷ "flip" ∷ "flow" ∷ "foam"
    ∷ "folk" ∷ "font" ∷ []

words2 : List String
words2 =
    "food" ∷ "foot" ∷ "ford" ∷ "fork" ∷ "form" ∷ "fort" ∷ "four" ∷ "free" ∷ "from" ∷ "fuel" ∷ "full"
    ∷ "fund" ∷ "fury" ∷ "fuse" ∷ "gain" ∷ "game" ∷ "gate" ∷ "gave" ∷ "gear" ∷ "gift" ∷ "girl"
    ∷ "glad" ∷ "glow" ∷ "glue" ∷ "goal" ∷ "gold" ∷ "golf" ∷ "gone" ∷ "good" ∷ "grab" ∷ "gram"
    ∷ "gray" ∷ "grew" ∷ "grid" ∷ "grim" ∷ "grip" ∷ "grow" ∷ "gulf" ∷ "guru" ∷ "hand" ∷ "hang"
    ∷ "hard" ∷ "harm" ∷ "hash" ∷ "haul" ∷ "have" ∷ "hawk" ∷ "head" ∷ "heat" ∷ "heel" ∷ "held"
    ∷ "helm" ∷ "help" ∷ "hero" ∷ "high" ∷ "hike" ∷ "hill" ∷ "hint" ∷ "hold" ∷ "hole" ∷ "home"
    ∷ "hook" ∷ "hope" ∷ []

words3 : List String
words3 =
    "horn" ∷ "host" ∷ "hour" ∷ "huge" ∷ "hull" ∷ "hunt" ∷ "hurt" ∷ "icon" ∷ "idea" ∷ "idle" ∷ "inch"
    ∷ "iron" ∷ "item" ∷ "jade" ∷ "jazz" ∷ "jest" ∷ "join" ∷ "jump" ∷ "just" ∷ "keen" ∷ "kept"
    ∷ "kind" ∷ "king" ∷ "knot" ∷ "know" ∷ "lack" ∷ "lake" ∷ "lamp" ∷ "land" ∷ "last" ∷ "late"
    ∷ "lead" ∷ "leaf" ∷ "lean" ∷ "leap" ∷ "left" ∷ "lens" ∷ "less" ∷ "life" ∷ "lift" ∷ "like"
    ∷ "lime" ∷ "line" ∷ "link" ∷ "lion" ∷ "list" ∷ "load" ∷ "lock" ∷ "loft" ∷ "lone" ∷ "long"
    ∷ "look" ∷ "loop" ∷ "loss" ∷ "lost" ∷ "loud" ∷ "love" ∷ "luck" ∷ "made" ∷ "main" ∷ "make"
    ∷ "mall" ∷ "many" ∷ []

words4 : List String
words4 =
    "mark" ∷ "mars" ∷ "mask" ∷ "math" ∷ "maze" ∷ "meal" ∷ "meet" ∷ "melt" ∷ "menu" ∷ "mesa" ∷ "mesh"
    ∷ "mind" ∷ "mint" ∷ "miss" ∷ "mist" ∷ "mode" ∷ "monk" ∷ "moon" ∷ "more" ∷ "most" ∷ "move"
    ∷ "much" ∷ "mute" ∷ "myth" ∷ "name" ∷ "navy" ∷ "near" ∷ "neck" ∷ "need" ∷ "nest" ∷ "next"
    ∷ "nice" ∷ "nine" ∷ "node" ∷ "none" ∷ "noon" ∷ "norm" ∷ "note" ∷ "nova" ∷ "null" ∷ "oath"
    ∷ "once" ∷ "only" ∷ "open" ∷ "oral" ∷ "orca" ∷ "over" ∷ "pace" ∷ "pack" ∷ "page" ∷ "paid"
    ∷ "pain" ∷ "pair" ∷ "palm" ∷ "park" ∷ "part" ∷ "pass" ∷ "path" ∷ "peak" ∷ "peer" ∷ "pick"
    ∷ "pier" ∷ "pine" ∷ []

words5 : List String
words5 =
    "pink" ∷ "plan" ∷ "play" ∷ "plot" ∷ "plow" ∷ "plus" ∷ "poet" ∷ "pole" ∷ "poll" ∷ "pond" ∷ "pool"
    ∷ "poor" ∷ "port" ∷ "post" ∷ "pour" ∷ "prey" ∷ "pure" ∷ "push" ∷ "quad" ∷ "race" ∷ "rack"
    ∷ "ramp" ∷ "rank" ∷ "read" ∷ "real" ∷ "reef" ∷ "rely" ∷ "rent" ∷ "rest" ∷ "rice" ∷ "rich"
    ∷ "ride" ∷ "ring" ∷ "rise" ∷ "risk" ∷ "road" ∷ "rock" ∷ "role" ∷ "roll" ∷ "roof" ∷ "room"
    ∷ "root" ∷ "rope" ∷ "rose" ∷ "ruin" ∷ "rule" ∷ "rush" ∷ "safe" ∷ "sail" ∷ "sake" ∷ "sale"
    ∷ "salt" ∷ "same" ∷ "save" ∷ "scan" ∷ "seal" ∷ "seed" ∷ "seek" ∷ "seem" ∷ "self" ∷ "sell"
    ∷ "send" ∷ "ship" ∷ []

words6 : List String
words6 =
    "shoe" ∷ "shop" ∷ "shot" ∷ "show" ∷ "side" ∷ "sign" ∷ "silk" ∷ "silt" ∷ "site" ∷ "size" ∷ "skin"
    ∷ "skip" ∷ "slab" ∷ "slam" ∷ "slim" ∷ "slip" ∷ "slow" ∷ "snap" ∷ "snow" ∷ "soft" ∷ "soil"
    ∷ "sole" ∷ "some" ∷ "song" ∷ "sort" ∷ "soul" ∷ "span" ∷ "spin" ∷ "spot" ∷ "star" ∷ "stay"
    ∷ "stem" ∷ "step" ∷ "stop" ∷ "such" ∷ "suit" ∷ "surf" ∷ "swap" ∷ "swim" ∷ "tail" ∷ "task"
    ∷ "team" ∷ "tear" ∷ "tell" ∷ "term" ∷ "text" ∷ "than" ∷ "them" ∷ "then" ∷ "they" ∷ "thin"
    ∷ "this" ∷ "tile" ∷ "time" ∷ "tiny" ∷ "tire" ∷ "toll" ∷ "tone" ∷ "tool" ∷ "tops" ∷ "tour"
    ∷ "town" ∷ "trap" ∷ []

words7 : List String
words7 =
    "trek" ∷ "trim" ∷ "trio" ∷ "true" ∷ "tube" ∷ "tune" ∷ "turn" ∷ "type" ∷ "unit" ∷ "upon" ∷ "used"
    ∷ "user" ∷ "vast" ∷ "verb" ∷ "very" ∷ "view" ∷ "vine" ∷ "void" ∷ "volt" ∷ "vote" ∷ "wade"
    ∷ "wage" ∷ "wake" ∷ "walk" ∷ "wall" ∷ "warm" ∷ "warp" ∷ "wary" ∷ "wave" ∷ "weak" ∷ "wear"
    ∷ "weed" ∷ "well" ∷ "went" ∷ "were" ∷ "west" ∷ "what" ∷ "when" ∷ "wide" ∷ "wild" ∷ "will"
    ∷ "wind" ∷ "wine" ∷ "wire" ∷ "wise" ∷ "wish" ∷ "with" ∷ "wolf" ∷ "wood" ∷ "word" ∷ "wore"
    ∷ "work" ∷ "worm" ∷ "worn" ∷ "wrap" ∷ "yard" ∷ "year" ∷ "your" ∷ "zero" ∷ "zinc" ∷ "zone"
    ∷ "zoom" ∷ "barn" ∷ []

unfoldable pub passphrase_wordlist : List String
unfolding words0 words1 words2 words3 words4 words5 words6 words7
passphrase_wordlist =
    words0 ++ (words1 ++ (words2 ++ (words3 ++ (words4 ++ (words5 ++ (words6 ++ words7))))))

-- The list has 504 words.
length-passphrase_wordlist : length passphrase_wordlist ≡ 504
unfolding passphrase_wordlist
length-passphrase_wordlist = refl
