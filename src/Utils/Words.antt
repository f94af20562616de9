-- ===== src/Utils/Words.antt =====
-- The words of `generate_container_name` of mini_docker/utils.py.
use mini_docker.Base.{String, List, [], ◌∷◌}

-- `ADJECTIVES`
abbrev pub adjectives : List String
adjectives =
    "admiring" ∷ "adoring" ∷ "affectionate" ∷ "agitated" ∷ "amazing" ∷ "angry" ∷ "awesome"
    ∷ "beautiful" ∷ "blissful" ∷ "bold" ∷ "boring" ∷ "brave" ∷ "busy" ∷ "charming" ∷ "clever"
    ∷ "cool" ∷ "compassionate" ∷ "competent" ∷ "condescending" ∷ "confident" ∷ "cranky" ∷ "crazy"
    ∷ "dazzling" ∷ "determined" ∷ "distracted" ∷ "dreamy" ∷ "eager" ∷ "ecstatic" ∷ "elastic"
    ∷ "elated" ∷ "elegant" ∷ "eloquent" ∷ "epic" ∷ "exciting" ∷ "fervent" ∷ "festive" ∷ "flamboyant"
    ∷ "focused" ∷ "friendly" ∷ "frosty" ∷ "funny" ∷ "gallant" ∷ "gifted" ∷ "goofy" ∷ "gracious"
    ∷ "great" ∷ "happy" ∷ "hardcore" ∷ "heuristic" ∷ "hopeful" ∷ "hungry" ∷ "infallible"
    ∷ "inspiring" ∷ "intelligent" ∷ "interesting" ∷ "jolly" ∷ "jovial" ∷ "keen" ∷ "kind"
    ∷ "laughing" ∷ "loving" ∷ "lucid" ∷ "magical" ∷ "modest" ∷ "musing" ∷ "mystifying" ∷ "naughty"
    ∷ "nervous" ∷ "nice" ∷ "nifty" ∷ "nostalgic" ∷ "objective" ∷ "optimistic" ∷ "peaceful"
    ∷ "pedantic" ∷ "pensive" ∷ "practical" ∷ "priceless" ∷ "quirky" ∷ "quizzical" ∷ "recursing"
    ∷ "relaxed" ∷ "reverent" ∷ "romantic" ∷ "sad" ∷ "serene" ∷ "sharp" ∷ "silly" ∷ "sleepy"
    ∷ "stoic" ∷ "strange" ∷ "stupefied" ∷ "suspicious" ∷ "sweet" ∷ "tender" ∷ "thirsty" ∷ "trusting"
    ∷ "unruffled" ∷ "upbeat" ∷ "vibrant" ∷ "vigilant" ∷ "vigorous" ∷ "wizardly" ∷ "wonderful"
    ∷ "xenodochial" ∷ "youthful" ∷ "zealous" ∷ "zen" ∷ "silent" ∷ "swift" ∷ []

-- `ANIMALS`
abbrev pub animals : List String
animals =
    "albatross" ∷ "alligator" ∷ "alpaca" ∷ "ant" ∷ "antelope" ∷ "ape" ∷ "armadillo" ∷ "baboon"
    ∷ "badger" ∷ "bat" ∷ "bear" ∷ "beaver" ∷ "bee" ∷ "bison" ∷ "boar" ∷ "buffalo" ∷ "butterfly"
    ∷ "camel" ∷ "caribou" ∷ "cat" ∷ "caterpillar" ∷ "cheetah" ∷ "chicken" ∷ "chimpanzee" ∷ "cobra"
    ∷ "coyote" ∷ "crab" ∷ "crane" ∷ "crocodile" ∷ "crow" ∷ "deer" ∷ "dog" ∷ "dolphin" ∷ "donkey"
    ∷ "dove" ∷ "dragonfly" ∷ "duck" ∷ "eagle" ∷ "elephant" ∷ "elk" ∷ "emu" ∷ "falcon" ∷ "ferret"
    ∷ "finch" ∷ "fish" ∷ "flamingo" ∷ "fox" ∷ "frog" ∷ "gazelle" ∷ "gerbil" ∷ "giraffe" ∷ "goat"
    ∷ "goose" ∷ "gorilla" ∷ "grasshopper" ∷ "hamster" ∷ "hare" ∷ "hawk" ∷ "hedgehog" ∷ "heron"
    ∷ "hippo" ∷ "hornet" ∷ "horse" ∷ "hummingbird" ∷ "hyena" ∷ "jackal" ∷ "jaguar" ∷ "jay"
    ∷ "jellyfish" ∷ "kangaroo" ∷ "koala" ∷ "lemur" ∷ "leopard" ∷ "lion" ∷ "lizard" ∷ "llama"
    ∷ "lobster" ∷ "lynx" ∷ "magpie" ∷ "mallard" ∷ "manatee" ∷ "meerkat" ∷ "mink" ∷ "mole"
    ∷ "mongoose" ∷ "monkey" ∷ "moose" ∷ "mouse" ∷ "mule" ∷ "narwhal" ∷ "newt" ∷ "octopus"
    ∷ "opossum" ∷ "orca" ∷ "ostrich" ∷ "otter" ∷ "owl" ∷ "ox" ∷ "panda" ∷ "panther" ∷ "parrot"
    ∷ "peacock" ∷ "pelican" ∷ "penguin" ∷ "pig" ∷ "pigeon" ∷ "porcupine" ∷ "rabbit" ∷ "raccoon"
    ∷ "ram" ∷ "raven" ∷ "salmon" ∷ "seal" ∷ "shark" ∷ "sheep" ∷ "sloth" ∷ "snail" ∷ "snake"
    ∷ "sparrow" ∷ "spider" ∷ "squid" ∷ "squirrel" ∷ "stork" ∷ "swan" ∷ "tiger" ∷ "toad" ∷ "turkey"
    ∷ "turtle" ∷ "vulture" ∷ "walrus" ∷ "wasp" ∷ "weasel" ∷ "whale" ∷ "wolf" ∷ "wolverine"
    ∷ "wombat" ∷ "woodpecker" ∷ "yak" ∷ "zebra" ∷ []
