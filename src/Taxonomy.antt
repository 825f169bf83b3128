-- ===== src/Taxonomy.antt =====
-- src/libtb/taxonomy/__init__.py: what each category of the lists says, as facets and paths.
-- The table is the source's `TAXONOMY`, row by row, in three parts.
pub mod Severities
mod Tests
use turkey_bite.Prelude.{
  String, ◌≡◌, ◌↔◌, map, keep, any, not, if◌then◌else◌, Bool, true, false, ◌&&◌, Option, none, some,
  List, [], ◌∷◌, ◌++◌, arith, HasEq, ◌==◌, nat_eq, list_eq, list_beq_iff, eq_refl, and-eq-true,
}
use turkey_bite.Text.{Text, text, strip, lower, sorted_set}
use turkey_bite.Json.{Json, str}

pub data Facet : Type 0 where
  purpose service risk : Facet

-- A (facet, path) pair; a category that the taxonomy does not know has no facet.
pub record Statement : Type 0 where
  pub facet : Option Facet
  pub path : Text

abbrev pub facet_eq : Option Facet → Option Facet → Bool
facet_eq none none = true
facet_eq (some purpose) (some purpose) = true
facet_eq (some service) (some service) = true
facet_eq (some risk) (some risk) = true
facet_eq _ _ = false

facet_eq_sound : (f g : Option Facet) → facet_eq f g ≡ true → f ≡ g
facet_eq_sound f g h = ground arith

facet_eq_refl : (f : Option Facet) → facet_eq f f ≡ true
facet_eq_refl f = ground arith

abbrev pub statement_beq : Statement → Statement → Bool
statement_beq s t = facet_eq s.facet t.facet && s.path == t.path

pub statement_beq_iff : (s t : Statement) → (statement_beq s t ≡ true) ↔ (s ≡ t)
statement_beq_iff s t = (
  (λ h.
      let (a, b) = and-eq-true _ _ h in
      let p = facet_eq_sound s.facet t.facet a in
      let q = (list_beq_iff s.path t.path).0 b in λ i. record { facet = p i; path = q i }),
  (λ e. rw e (rw (facet_eq_refl t.facet, eq_refl t.path))),
)

instance abbrev pub statement_eq : HasEq Statement
statement_eq = record { same = statement_beq; same_iff = statement_beq_iff }

abbrev says : Facet → String → Statement
says f path = record { facet = some f; path = text path }

abbrev pub Rows : Type 0
Rows = List (Text × List Statement)

unfoldable pub first_rows : Rows
first_rows =
    (text "social", says purpose "social.networks" ∷ [])
    ∷ (text "streaming", says purpose "media.streaming" ∷ [])
    ∷ (text "streaming-audio", says purpose "media.audio" ∷ [])
    ∷ (text "streaming-video", says purpose "media.video" ∷ [])
    ∷ (text "games", says purpose "gaming.platforms" ∷ [])
    ∷ (text "shopping", says purpose "commerce.retail" ∷ [])
    ∷ (text "news", says purpose "information.news" ∷ [])
    ∷ (text "sports", says purpose "information.sports" ∷ [])
    ∷ (text "education", says purpose "information.education" ∷ [])
    ∷ (text "government", says purpose "information.government" ∷ [])
    ∷ (text "search", says purpose "information.search" ∷ [])
    ∷ (text "professional", says purpose "productivity.office" ∷ [])
    ∷ (text "mail", says purpose "communication.email" ∷ [])
    ∷ (text "it", says purpose "technology.it-services" ∷ [])
    ∷ (text "development", says purpose "technology.development" ∷ [])
    ∷ (text "ai", says purpose "technology.ai" ∷ [])
    ∷ (text "filehosting", says purpose "technology.file-hosting" ∷ [])
    ∷ (text "porn", says purpose "adult.pornography" ∷ [])
    ∷ (text "gambling", says purpose "adult.gambling" ∷ [])
    ∷ (text "drugs", says purpose "adult.drugs" ∷ [])
    ∷ (text "malicious", says risk "threat.malicious" ∷ [])
    ∷ (text "malware", says risk "threat.malware" ∷ [])
    ∷ (text "ransomware", says risk "threat.ransomware" ∷ [])
    ∷ (text "phishing", says risk "threat.phishing" ∷ [])
    ∷ (text "fraud", says risk "threat.fraud" ∷ [])
    ∷ (text "scam", says risk "threat.scam" ∷ [])
    ∷ (text "crypto", says risk "threat.cryptomining" ∷ [])
    ∷ (text "stalkerware", says risk "threat.stalkerware" ∷ [])
    ∷ (text "ddos", says risk "threat.ddos-for-hire" ∷ [])
    ∷ (text "tracking", says risk "privacy.tracking" ∷ [])
    ∷ (text "windows-tracking", says risk "privacy.tracking" ∷ [])
    ∷ (text "advertising", says risk "privacy.advertising" ∷ [])
    ∷ (text "torrent", says risk "policy.piracy" ∷ [])
    ∷ (text "piracy", says risk "policy.piracy" ∷ [])
    ∷ (text "url-shorteners", says risk "policy.url-shortener" ∷ [])
    ∷ (text "proxy", says risk "policy.anonymiser" ∷ [])
    ∷ (text "vpn", says risk "policy.anonymiser" ∷ [])
    ∷ (text "doh", says risk "policy.encrypted-dns" ∷ [])
    ∷ (text "proxyware", says risk "policy.proxyware" ∷ [])
    ∷ (text "remote-access", says risk "policy.remote-access" ∷ [])
    ∷ []

unfoldable pub second_rows : Rows
second_rows =
    (text "fake-news", says risk "editorial.fakenews" ∷ [])
    ∷ (text "fakenews", says risk "editorial.fakenews" ∷ [])
    ∷ (text "fascist", says risk "editorial.fascist" ∷ [])
    ∷ (text "zionist", says risk "editorial.zionist" ∷ [])
    ∷ (text "facebook", says service "meta.facebook" ∷ says purpose "social.networks" ∷ [])
    ∷ (text "instagram", says service "meta.instagram" ∷ says purpose "social.networks" ∷ [])
    ∷ (text "whatsapp", says service "meta.whatsapp" ∷ says purpose "communication.messaging" ∷ [])
    ∷ (text "twitter", says service "x.twitter" ∷ says purpose "social.networks" ∷ [])
    ∷ (text "tiktok", says service "bytedance.tiktok" ∷ says purpose "social.networks" ∷ [])
    ∷ (text "snapchat", says service "snap.snapchat" ∷ says purpose "social.networks" ∷ [])
    ∷ (text "reddit", says service "reddit" ∷ says purpose "social.forums" ∷ [])
    ∷ (text "myspace", says service "myspace" ∷ says purpose "social.networks" ∷ [])
    ∷ (text "tinder", says service "match.tinder" ∷ says purpose "social.dating" ∷ [])
    ∷ (text "discord", says service "discord" ∷ says purpose "communication.messaging" ∷ [])
    ∷ (text "telegram", says service "telegram" ∷ says purpose "communication.messaging" ∷ [])
    ∷ (text "signal", says service "signal" ∷ says purpose "communication.messaging" ∷ [])
    ∷ (text "whispersystems", says service "signal" ∷ says purpose "communication.messaging" ∷ [])
    ∷ (text "zoom", says service "zoom" ∷ says purpose "communication.voice-video" ∷ [])
    ∷ (text "youtube", says service "google.youtube" ∷ says purpose "media.video" ∷ [])
    ∷ (text "netflix", says service "netflix" ∷ says purpose "media.video" ∷ [])
    ∷ (text "hulu", says service "hulu" ∷ says purpose "media.video" ∷ [])
    ∷ (text "disneyplus", says service "disney.plus" ∷ says purpose "media.video" ∷ [])
    ∷ (text "vimeo", says service "vimeo" ∷ says purpose "media.video" ∷ [])
    ∷ (text "spotify", says service "spotify" ∷ says purpose "media.audio" ∷ [])
    ∷ (text "twitch", says service "amazon.twitch" ∷ says purpose "gaming.streaming" ∷ [])
    ∷ (text "steam", says service "valve.steam" ∷ says purpose "gaming.storefronts" ∷ [])
    ∷ (text "epicgames", says service "epic.games" ∷ says purpose "gaming.storefronts" ∷ [])
    ∷ (text "nintendo", says service "nintendo.eshop" ∷ says purpose "gaming.platforms" ∷ [])
    ∷ (text "ea", says service "ea" ∷ says purpose "gaming.platforms" ∷ [])
    ∷ (text "activision", says service "activision" ∷ says purpose "gaming.platforms" ∷ [])
    ∷ (text "blizzard", says service "blizzard" ∷ says purpose "gaming.platforms" ∷ [])
    ∷ (text "riotgames", says service "riot.games" ∷ says purpose "gaming.platforms" ∷ [])
    ∷ (text "rockstargames", says service "rockstar.games" ∷ says purpose "gaming.platforms" ∷ [])
    ∷ (text "take-twointeractive", says service "taketwo" ∷ says purpose "gaming.platforms" ∷ [])
    ∷ (text "ubisoft", says service "ubisoft" ∷ says purpose "gaming.platforms" ∷ [])
    ∷ (text "square-enix", says service "squareenix" ∷ says purpose "gaming.platforms" ∷ [])
    ∷ (text "minecraft", says service "microsoft.minecraft" ∷ says purpose "gaming.platforms" ∷ [])
    ∷ (text "roblox", says service "roblox" ∷ says purpose "gaming.platforms" ∷ [])
    ∷ (text "warthunder", says service "gaijin.warthunder" ∷ says purpose "gaming.platforms" ∷ [])
    ∷ (text "zynga", says service "zynga" ∷ says purpose "gaming.platforms" ∷ [])
    ∷ []

unfoldable pub third_rows : Rows
third_rows =
    (text "atlasvpn", says service "atlasvpn" ∷ says risk "policy.anonymiser" ∷ [])
    ∷ (text "cyberghostvpn", says service "cyberghost" ∷ says risk "policy.anonymiser" ∷ [])
    ∷ (text "expressvpn", says service "expressvpn" ∷ says risk "policy.anonymiser" ∷ [])
    ∷ (text "freevpnplanet", says service "freevpnplanet" ∷ says risk "policy.anonymiser" ∷ [])
    ∷ (text "hide.me", says service "hideme" ∷ says risk "policy.anonymiser" ∷ [])
    ∷ (
      text "hotspotshield",
      says service "pango.hotspotshield" ∷ says risk "policy.anonymiser" ∷ [],
    )
    ∷ (text "ipvanish", says service "ipvanish" ∷ says risk "policy.anonymiser" ∷ [])
    ∷ (text "ivpn", says service "ivpn" ∷ says risk "policy.anonymiser" ∷ [])
    ∷ (text "mullvad", says service "mullvad" ∷ says risk "policy.anonymiser" ∷ [])
    ∷ (text "privadovpn", says service "privadovpn" ∷ says risk "policy.anonymiser" ∷ [])
    ∷ (text "privateinternetaccess", says service "pia" ∷ says risk "policy.anonymiser" ∷ [])
    ∷ (text "protonvpn", says service "proton.vpn" ∷ says risk "policy.anonymiser" ∷ [])
    ∷ (text "purevpn", says service "purevpn" ∷ says risk "policy.anonymiser" ∷ [])
    ∷ (text "strongvpn", says service "strongvpn" ∷ says risk "policy.anonymiser" ∷ [])
    ∷ (text "surfshark", says service "surfshark" ∷ says risk "policy.anonymiser" ∷ [])
    ∷ (text "tunnelbear", says service "tunnelbear" ∷ says risk "policy.anonymiser" ∷ [])
    ∷ (text "urbanvpn", says service "urbanvpn" ∷ says risk "policy.anonymiser" ∷ [])
    ∷ []

unfoldable pub taxonomy : Rows
unfolding first_rows second_rows third_rows
taxonomy = first_rows ++ (second_rows ++ (third_rows))

pub data Severity : Type 0 where
  slight moderate severe : Severity

-- SEVERITY; a path that is not there has none
unfoldable pub severities : List (Text × Severity)
severities =
    (text "threat.malicious", severe)
    ∷ (text "threat.malware", severe)
    ∷ (text "threat.ransomware", severe)
    ∷ (text "threat.phishing", severe)
    ∷ (text "threat.c2", severe)
    ∷ (text "threat.fraud", moderate)
    ∷ (text "threat.scam", moderate)
    ∷ (text "threat.cryptomining", moderate)
    ∷ (text "threat.stalkerware", severe)
    ∷ (text "threat.ddos-for-hire", moderate)
    ∷ (text "policy.anonymiser", moderate)
    ∷ (text "policy.encrypted-dns", moderate)
    ∷ (text "policy.proxyware", moderate)
    ∷ (text "policy.remote-access", slight)
    ∷ (text "policy.piracy", slight)
    ∷ (text "policy.url-shortener", slight)
    ∷ (text "privacy.tracking", slight)
    ∷ (text "privacy.advertising", slight)
    ∷ []

abbrev pub severity_in : Text → List (Text × Severity) → Option Severity
severity_in path [] = none
severity_in path ((p, level) ∷ rest) =
    let later = severity_in path rest in if p == path then some level else later

unfoldable pub severity_of : Text → Option Severity
unfolding severities
severity_of path = severity_in path severities

abbrev pub has_level : Severity → Option Severity → Bool
has_level severe (some severe) = true
has_level moderate (some moderate) = true
has_level slight (some slight) = true
has_level _ _ = false

-- What `classify` answers; an empty list or none is a key that is not there.
pub record Classes : Type 0 where
  pub purposes : List Text
  pub services : List Text
  pub risks : List Text
  pub unmapped : List Text
  pub risk_severity : Option Severity

abbrev pub table_rows : Text → Rows → List Statement
table_rows key [] = []
table_rows key ((k, r) ∷ rest) = let later = table_rows key rest in if k == key then r else later

abbrev pub is_blank : Text → Bool
is_blank [] = true
is_blank (c ∷ t) = false

abbrev pub has_no_rows : List Statement → Bool
has_no_rows [] = true
has_no_rows (s ∷ ss) = false

-- key = context.strip().lower(), of the contexts that are strings, where it is not empty
unfoldable pub class_keys : List Json → List Text
unfolding strip lower
class_keys [] = []
class_keys (str context ∷ contexts) =
    let keys = class_keys contexts in
    let key = lower (strip context) in if is_blank key then keys else key ∷ keys
class_keys (_ ∷ contexts) = class_keys contexts

abbrev pub paths_of : List Statement → Option Facet → List Text
paths_of [] f = []
paths_of (s ∷ ss) f = let rest = paths_of ss f in if facet_eq s.facet f then s.path ∷ rest else rest

-- buckets[facet]
unfoldable pub bucket : Facet → List Text → List Text
unfolding taxonomy
bucket f [] = []
bucket f (key ∷ keys) = paths_of (table_rows key taxonomy) (some f) ++ bucket f keys

-- The first of high, medium and low that a path of the risks has.
unfoldable pub worst : List Text → Option Severity
unfolding severity_of
worst paths =
    if any (λ p. has_level severe (severity_of p)) paths
    then some severe
    else if any (λ p. has_level moderate (severity_of p)) paths
    then some moderate
    else if any (λ p. has_level slight (severity_of p)) paths
    then some slight
    else none

unfoldable pub classify : List Json → Classes
unfolding class_keys bucket worst sorted_set taxonomy
classify contexts = record {
  purposes = sorted_set (bucket purpose (class_keys contexts));
  services = sorted_set (bucket service (class_keys contexts));
  risks = sorted_set (bucket risk (class_keys contexts));
  unmapped = sorted_set (keep (λ k. has_no_rows (table_rows k taxonomy)) (class_keys contexts));
  risk_severity = worst (bucket risk (class_keys contexts));
}
