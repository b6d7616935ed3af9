-- ===== src/Platform.antt =====
-- What the code calls in Qt beyond plain queries of a QByteArray, a QString or a container: an
-- interface that the definitions take as a parameter. Its documented laws stand as hypotheses of
-- the theorems that rest on them.
use kdsoap.Prelude.{Text, Option, ℤ}

pub record Qt : Type 0 where
  -- toInt(&ok) and toInt(&ok, 16); `none` stands for ok == false.
  pub to_int : Text → Option ℤ
  pub to_int_hex : Text → Option ℤ
  -- QByteArray::number
  pub number : ℤ → Text
  -- QDir::cleanPath(QString::fromUtf8(path)).toUtf8()
  pub clean_path : Text → Text
