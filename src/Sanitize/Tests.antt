-- ===== src/Sanitize/Tests.antt =====
-- A text that is cut at a character's start.
use payments_boilerplate.Base.{◌≡◌, refl}
use payments_boilerplate.Sanitize.{truncate, valid_text, cut_at}

-- "é" is two bytes, so that a cut after three bytes keeps three letters or stops before it.
keeps_characters : truncate "caéb" 3 ≡ "ca"
unfolding truncate valid_text cut_at
keeps_characters = refl
