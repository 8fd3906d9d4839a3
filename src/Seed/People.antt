-- ===== src/Seed/People.antt =====
-- The accounts of go-core/internal/seed/seed.go.
use tinder_like_back.Base.{ℕ, List, [], ◌∷◌}
use tinder_like_back.Geo.{FloatOps}
use tinder_like_back.Models.{Text, Float64, Date}

pub record Account : Type 0 where
  pub email : Text
  pub full_name : Text
  pub birthday : Date
  pub gender : ℕ
  pub city : Text
  pub latitude : Float64
  pub longitude : Float64

abbrev moscow : Text
moscow = 1052 ∷ 1086 ∷ 1089 ∷ 1082 ∷ 1074 ∷ 1072 ∷ []

abbrev saint_petersburg : Text
saint_petersburg =
    1057 ∷ 1072 ∷ 1085 ∷ 1082 ∷ 1090 ∷ 45 ∷ 1055 ∷ 1077 ∷ 1090 ∷ 1077 ∷ 1088 ∷ 1073 ∷ 1091 ∷ 1088
    ∷ 1075 ∷ []

abbrev pub demo_email : Text
demo_email =
    100 ∷ 101 ∷ 109 ∷ 111 ∷ 64 ∷ 101 ∷ 120 ∷ 97 ∷ 109 ∷ 112 ∷ 108 ∷ 101 ∷ 46 ∷ 99 ∷ 111 ∷ 109 ∷ []

abbrev pub alina_email : Text
alina_email =
    97 ∷ 108 ∷ 105 ∷ 110 ∷ 97 ∷ 64 ∷ 101 ∷ 120 ∷ 97 ∷ 109 ∷ 112 ∷ 108 ∷ 101 ∷ 46 ∷ 99 ∷ 111 ∷ 109
    ∷ []

abbrev pub daria_email : Text
daria_email =
    100 ∷ 97 ∷ 114 ∷ 105 ∷ 97 ∷ 64 ∷ 101 ∷ 120 ∷ 97 ∷ 109 ∷ 112 ∷ 108 ∷ 101 ∷ 46 ∷ 99 ∷ 111 ∷ 109
    ∷ []

abbrev pub sofia_email : Text
sofia_email =
    115 ∷ 111 ∷ 102 ∷ 105 ∷ 97 ∷ 64 ∷ 101 ∷ 120 ∷ 97 ∷ 109 ∷ 112 ∷ 108 ∷ 101 ∷ 46 ∷ 99 ∷ 111 ∷ 109
    ∷ []

abbrev pub maria_email : Text
maria_email =
    109 ∷ 97 ∷ 114 ∷ 105 ∷ 97 ∷ 64 ∷ 101 ∷ 120 ∷ 97 ∷ 109 ∷ 112 ∷ 108 ∷ 101 ∷ 46 ∷ 99 ∷ 111 ∷ 109
    ∷ []

abbrev pub elena_email : Text
elena_email =
    101 ∷ 108 ∷ 101 ∷ 110 ∷ 97 ∷ 64 ∷ 101 ∷ 120 ∷ 97 ∷ 109 ∷ 112 ∷ 108 ∷ 101 ∷ 46 ∷ 99 ∷ 111 ∷ 109
    ∷ []

abbrev pub nikita_email : Text
nikita_email =
    110 ∷ 105 ∷ 107 ∷ 105 ∷ 116 ∷ 97 ∷ 64 ∷ 101 ∷ 120 ∷ 97 ∷ 109 ∷ 112 ∷ 108 ∷ 101 ∷ 46 ∷ 99 ∷ 111
    ∷ 109 ∷ []

abbrev pub ivan_email : Text
ivan_email =
    105 ∷ 118 ∷ 97 ∷ 110 ∷ 64 ∷ 101 ∷ 120 ∷ 97 ∷ 109 ∷ 112 ∷ 108 ∷ 101 ∷ 46 ∷ 99 ∷ 111 ∷ 109 ∷ []

module _ (fl : FloatOps) where
  -- Демо Пользователь
  abbrev demo : Account
  demo = record {
    email = demo_email;
    full_name =
        1044 ∷ 1077 ∷ 1084 ∷ 1086 ∷ 32 ∷ 1055 ∷ 1086 ∷ 1083 ∷ 1100 ∷ 1079 ∷ 1086 ∷ 1074 ∷ 1072
        ∷ 1090 ∷ 1077 ∷ 1083 ∷ 1100 ∷ [];
    birthday = record { year = 1995; month = 6; day = 15 };
    gender = 1;
    city = moscow;
    latitude = fl.literal 557558 4;
    longitude = fl.literal 376176 4;
  }

  -- Алина
  abbrev alina : Account
  alina = record {
    email = alina_email;
    full_name = 1040 ∷ 1083 ∷ 1080 ∷ 1085 ∷ 1072 ∷ [];
    birthday = record { year = 1997; month = 3; day = 21 };
    gender = 2;
    city = moscow;
    latitude = fl.literal 557522 4;
    longitude = fl.literal 376156 4;
  }

  -- Дарья
  abbrev daria : Account
  daria = record {
    email = daria_email;
    full_name = 1044 ∷ 1072 ∷ 1088 ∷ 1100 ∷ 1103 ∷ [];
    birthday = record { year = 1994; month = 11; day = 8 };
    gender = 2;
    city = moscow;
    latitude = fl.literal 557610 4;
    longitude = fl.literal 376312 4;
  }

  -- София
  abbrev sofia : Account
  sofia = record {
    email = sofia_email;
    full_name = 1057 ∷ 1086 ∷ 1092 ∷ 1080 ∷ 1103 ∷ [];
    birthday = record { year = 1998; month = 7; day = 13 };
    gender = 2;
    city = moscow;
    latitude = fl.literal 557412 4;
    longitude = fl.literal 376081 4;
  }

  -- Мария
  abbrev maria : Account
  maria = record {
    email = maria_email;
    full_name = 1052 ∷ 1072 ∷ 1088 ∷ 1080 ∷ 1103 ∷ [];
    birthday = record { year = 1993; month = 1; day = 27 };
    gender = 2;
    city = moscow;
    latitude = fl.literal 557731 4;
    longitude = fl.literal 376054 4;
  }

  -- Елена
  abbrev elena : Account
  elena = record {
    email = elena_email;
    full_name = 1045 ∷ 1083 ∷ 1077 ∷ 1085 ∷ 1072 ∷ [];
    birthday = record { year = 1996; month = 9; day = 2 };
    gender = 2;
    city = moscow;
    latitude = fl.literal 557305 4;
    longitude = fl.literal 376402 4;
  }

  -- Никита
  abbrev nikita : Account
  nikita = record {
    email = nikita_email;
    full_name = 1053 ∷ 1080 ∷ 1082 ∷ 1080 ∷ 1090 ∷ 1072 ∷ [];
    birthday = record { year = 1992; month = 5; day = 17 };
    gender = 1;
    city = moscow;
    latitude = fl.literal 557443 4;
    longitude = fl.literal 376219 4;
  }

  -- Иван
  abbrev ivan : Account
  ivan = record {
    email = ivan_email;
    full_name = 1048 ∷ 1074 ∷ 1072 ∷ 1085 ∷ [];
    birthday = record { year = 1991; month = 2; day = 10 };
    gender = 1;
    city = saint_petersburg;
    latitude = fl.literal 599343 4;
    longitude = fl.literal 303351 4;
  }

  abbrev pub accounts : List Account
  accounts = demo ∷ alina ∷ daria ∷ sofia ∷ maria ∷ elena ∷ nikita ∷ ivan ∷ []
