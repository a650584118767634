-- ===== src/Notify/Key.antt =====
-- The keys of subscriptions: what they tell apart.
use mtdd.Prelude.{◌≡◌, ◌≢◌, refl, [], ◌∷◌, ◌++◌}
use mtdd.Js.Text.{Text}
use mtdd.Notify.{channel_key}

-- A text without a colon.
abbrev pub ColonFree : Text → Type 0
ColonFree [] = Unit
ColonFree (c ∷ s) = (c ≢ b':') × ColonFree s

colon_after :
    (s t : Text) {u v : Text}
    → ColonFree s
    → ColonFree t
    → s ++ b':' ∷ u ≡ t ++ b':' ∷ v
    → (s ≡ t) × (u ≡ v)
colon_after [] [] p q e = (refl, cc)
colon_after [] (c ∷ t) p q e = let same : c ≡ b':' = cc in absurd (q.0 same)
colon_after (c ∷ s) [] p q e = let same : c ≡ b':' = cc in absurd (p.0 same)
colon_after (c ∷ s) (d ∷ t) {u} {v} p q e =
    let first : c ≡ d = cc in
    let rest : s ++ b':' ∷ u ≡ t ++ b':' ∷ v = cc in
    let found = colon_after s t p.1 q.1 rest in (cc, found.1)

-- For scopes without a colon a key tells the scope and the channel: no two subscriptions share it.
pub channel_key-injective :
    (channel channel' scope scope' : Text)
    → ColonFree scope
    → ColonFree scope'
    → channel_key channel scope ≡ channel_key channel' scope'
    → (scope ≡ scope') × (channel ≡ channel')
unfolding channel_key
channel_key-injective channel channel' scope scope' p q e = colon_after scope scope' p q e
