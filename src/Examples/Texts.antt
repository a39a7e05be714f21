-- ===== src/Examples/Texts.antt =====
-- Keys, URLs and markdown at concrete texts.
use aideep_websocket.Common.{List, Text, codes, ◌≡◌, refl, true, [], ◌∷◌, ok, map}
use aideep_websocket.Attachments.Urls.{match_urls, get_public_url, extract_keys}
use aideep_websocket.Attachments.Urls.Keys.{are_keys, extract_keys-match_urls}
use aideep_websocket.Common.Items.{has}
use aideep_websocket.Ws.Event.{EventBody, node_delete, type_of, echo_suppressed_types}
use aideep_websocket.Ws.Event.Tags.{IsMember, member_of, node_deleted, type_of-member_of}
use aideep_websocket.Examples.Opened.{server}

abbrev page : Text
page = codes "see https://b.s3.r.amazonaws.com/k/1.png) and https://b.s3.r.amazonaws.com/ too"

one_key :
    extract_keys
      (codes "b")
      (codes "r")
      (match_urls (get_public_url (codes "b") (codes "r") []) 0 page)
    ≡ ok (codes "k/1.png" ∷ [])
unfolding server
one_key = refl

extract_keys-match_urls_example :
    (keys : List Text) × (extract_keys
        (codes "b")
        (codes "r")
        (match_urls (get_public_url (codes "b") (codes "r") []) 0 page)
      ≡ ok keys)
    × (match_urls (get_public_url (codes "b") (codes "r") []) 0 page
        ≡ map (get_public_url (codes "b") (codes "r")) keys)
    × (are_keys keys ≡ true)
extract_keys-match_urls_example = extract_keys-match_urls (codes "b") (codes "r") page

abbrev removal : EventBody
removal = node_delete (codes "u") (codes "n")

type_of-member_of_example :
    ((c : EventBody) → IsMember c → type_of removal ≡ type_of c → node_deleted ≡ member_of c)
    × (has (type_of removal) echo_suppressed_types ≡ true)
type_of-member_of_example = type_of-member_of removal tt
