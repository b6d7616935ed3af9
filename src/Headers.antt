-- ===== src/Headers.antt =====
-- The QMap<QByteArray, QByteArray> of HTTP headers (`HeadersMap` of KDSoapServerSocket.cpp).
use kdsoap.Prelude.{Text, List, [], ◌∷◌, Option, none, some, if◌then◌else◌, eq_text}

abbrev pub Headers : Type 0
Headers = List (Text × Text)

-- `insert` replaces the value of a key that is there.
unfoldable pub insert : Text → Text → Headers → Headers
insert k v [] = (k, v) ∷ []
insert k v ((j, w) ∷ m) = if eq_text j k then (k, v) ∷ m else (j, w) ∷ insert k v m

unfoldable pub find : Text → Headers → Option Text
find k [] = none
find k ((j, v) ∷ m) = if eq_text j k then some v else find k m

-- A missing key gives an empty value.
unfoldable pub value : Headers → Text → Text
value m k = elim (find k m) [ none ↦ [] | some v ↦ v ]
